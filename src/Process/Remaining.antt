-- ===== src/Process/Remaining.antt =====
-- What the filter leaves of an error: its causes but the unsupported ones.
use chain_application.Prelude.{
  ◌≡◌, refl, arith, List, [], ◌∷◌, ◌++◌, Bool, false, not, ◌||◌, filter, if◌then◌else◌,
}
use chain_application.Process.Faults.{
  Fault, nil, plain, errno, path_error, wrapping, joining, Faults, none_left, more,
  is_unsupported_path, is_unsupported_standard_stream_sync_error, keep, join,
  filter_standard_stream_sync_errors, filter_all,
}

mutual
  -- The errors that an error wraps and joins in the end; a path error that the filter is meant for
  -- counts as one.
  pub causes : Fault → List Fault
  causes nil = []
  causes (plain n) = plain n ∷ []
  causes (errno n) = errno n ∷ []
  causes (path_error op path e) =
      if is_unsupported_path op path e then path_error op path e ∷ [] else causes e
  causes (wrapping n e) = causes e
  causes (joining es) = all_causes es

  pub all_causes : Faults → List Fault
  all_causes none_left = []
  all_causes (more e es) = causes e ++ all_causes es

-- The causes that the filter keeps.
abbrev pub reported : List Fault → List Fault
reported es = filter (λ e. not (is_unsupported_standard_stream_sync_error e)) es

abbrev pub any_unsupported : List Fault → Bool
any_unsupported [] = false
any_unsupported (e ∷ es) = is_unsupported_standard_stream_sync_error e || any_unsupported es

abbrev pub IsFiltered : Fault → Fault × Bool → Type 0
IsFiltered e (filtered, changed) =
    (causes filtered ≡ reported (causes e))
    × (changed ≡ any_unsupported (causes e))
    × (changed ≡ false → filtered ≡ e)

abbrev AreFiltered : Faults → Faults × Bool → Type 0
AreFiltered es (remaining, changed) =
    (all_causes remaining ≡ reported (all_causes es)) × (changed ≡ any_unsupported (all_causes es))

reported-append : (xs ys : List Fault) → reported (xs ++ ys) ≡ reported xs ++ reported ys
reported-append [] ys = refl
reported-append (x ∷ xs) ys = ground (arith, reported-append xs ys)

any_unsupported-append :
    (xs ys : List Fault) → any_unsupported (xs ++ ys) ≡ (any_unsupported xs || any_unsupported ys)
any_unsupported-append [] ys = refl
any_unsupported-append (x ∷ xs) ys = ground (arith, any_unsupported-append xs ys)

-- Nothing is unsupported: everything is reported.
reported-all : (es : List Fault) → any_unsupported es ≡ false → reported es ≡ es
reported-all [] h = refl
reported-all (e ∷ es) h = ground (arith, h, reported-all es)

causes-keep : (e : Fault) (es : Faults) → all_causes (keep e es) ≡ causes e ++ all_causes es
unfolding causes
causes-keep nil es = refl
causes-keep (plain n) es = refl
causes-keep (errno n) es = refl
causes-keep (path_error op path e) es = refl
causes-keep (wrapping n e) es = refl
causes-keep (joining fs) es = refl

causes-join : (es : Faults) → causes (join es) ≡ all_causes es
unfolding causes
causes-join none_left = refl
causes-join (more e es) = refl

mutual
  unfolding causes filter_standard_stream_sync_errors

  filtered_lem : (e : Fault) → IsFiltered e (filter_standard_stream_sync_errors e)
  filtered_lem nil = (refl, refl, λ h. refl)
  filtered_lem (plain n) = (refl, refl, λ h. refl)
  filtered_lem (errno n) = (refl, refl, λ h. refl)
  filtered_lem (path_error op path e) =
      let (c, u, s) = filtered_lem e in ground (arith, c, u, s, reported-all (causes e))
  filtered_lem (wrapping n e) =
      let (c, u, s) = filtered_lem e in ground (arith, c, u, s, reported-all (causes e))
  filtered_lem (joining es) =
      let (c, u) = all_filtered_lem es in
      ground (arith, c, u, reported-all (all_causes es), causes-join (filter_all es).0)

  all_filtered_lem : (es : Faults) → AreFiltered es (filter_all es)
  all_filtered_lem none_left = (refl, refl)
  all_filtered_lem (more e es) =
      let (c, u, s) = filtered_lem e in
      let (d, v) = all_filtered_lem es in
      let kept = causes-keep (filter_standard_stream_sync_errors e).0 (filter_all es).0 in
      ground (
        arith,
        c,
        u,
        d,
        v,
        kept,
        reported-append (causes e) (all_causes es),
        any_unsupported-append (causes e) (all_causes es),
      )

-- The filter leaves the causes of an error but the unsupported syncs of the standard streams, in their
-- order; it reports a change exactly when there is such a cause, and without one returns the error.
pub filter_standard_stream_sync_errors-IsFiltered :
    (e : Fault) → IsFiltered e (filter_standard_stream_sync_errors e)
filter_standard_stream_sync_errors-IsFiltered e = filtered_lem e
