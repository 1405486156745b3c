-- ===== src/Process/Faults.antt =====
-- cmd/chain-api/main.go: `filterStandardStreamSyncErrors`. A Go error is a tree: what the type switch
-- sees of it is whether it is nil, an `*os.PathError`, a `syscall.Errno`, joins or wraps errors.
use chain_application.Prelude.{
  ℕ, Bytes, Bool, true, false, not, ◌&&◌, ◌||◌, ◌==◌, ascii, bytes_equal, if◌then◌else◌,
}

mutual
  pub data Fault : Type 0 where
    nil : Fault
    -- An error that neither wraps nor joins others, by an identity of its own.
    plain : ℕ → Fault
    errno : ℕ → Fault
    -- `*os.PathError`, which wraps its error.
    path_error : Bytes → Bytes → Fault → Fault
    wrapping : ℕ → Fault → Fault
    joining : Faults → Fault

  pub data Faults : Type 0 where
    none_left : Faults
    more : Fault → Faults → Faults

abbrev pub standard_output_path : Bytes
standard_output_path = ascii "/dev/stdout"

abbrev pub standard_error_path : Bytes
standard_error_path = ascii "/dev/stderr"

abbrev pub standard_stream_sync_operation : Bytes
standard_stream_sync_operation = ascii "sync"

-- EBADF, EINVAL and ENOTTY, as Linux numbers them.
abbrev pub is_unsupported_errno : ℕ → Bool
is_unsupported_errno n = n == 22 || n == 25 || n == 9

abbrev pub is_unsupported_cause : Fault → Bool
is_unsupported_cause (errno n) = is_unsupported_errno n
is_unsupported_cause nil = false
is_unsupported_cause (plain n) = false
is_unsupported_cause (path_error op path e) = false
is_unsupported_cause (wrapping n e) = false
is_unsupported_cause (joining es) = false

-- Of the operation and path of an `*os.PathError`, and its error.
unfoldable pub is_unsupported_path : Bytes → Bytes → Fault → Bool
is_unsupported_path op path e =
    bytes_equal op standard_stream_sync_operation
    && (bytes_equal path standard_output_path || bytes_equal path standard_error_path)
    && is_unsupported_cause e

abbrev pub is_unsupported_standard_stream_sync_error : Fault → Bool
is_unsupported_standard_stream_sync_error (path_error op path e) = is_unsupported_path op path e
is_unsupported_standard_stream_sync_error nil = false
is_unsupported_standard_stream_sync_error (plain n) = false
is_unsupported_standard_stream_sync_error (errno n) = false
is_unsupported_standard_stream_sync_error (wrapping n e) = false
is_unsupported_standard_stream_sync_error (joining es) = false

-- `append` of an error that is not nil.
abbrev pub keep : Fault → Faults → Faults
keep nil es = es
keep (plain n) es = more (plain n) es
keep (errno n) es = more (errno n) es
keep (path_error op path e) es = more (path_error op path e) es
keep (wrapping n e) es = more (wrapping n e) es
keep (joining fs) es = more (joining fs) es

-- `errors.Join` of errors that are not nil.
abbrev pub join : Faults → Fault
join none_left = nil
join (more e es) = joining (more e es)

unfoldable mutual
  pub filter_standard_stream_sync_errors : Fault → Fault × Bool
  filter_standard_stream_sync_errors nil = (nil, false)
  filter_standard_stream_sync_errors (plain n) = (plain n, false)
  filter_standard_stream_sync_errors (errno n) = (errno n, false)
  filter_standard_stream_sync_errors (path_error op path e) =
      let (filtered, changed) = filter_standard_stream_sync_errors e in
      if is_unsupported_path op path e
      then (nil, true)
      else if not changed
      then (path_error op path e, false)
      else (filtered, true)
  filter_standard_stream_sync_errors (wrapping n e) =
      let (filtered, changed) = filter_standard_stream_sync_errors e in
      if not changed then (wrapping n e, false) else (filtered, true)
  filter_standard_stream_sync_errors (joining es) =
      let (remaining, changed) = filter_all es in
      if not changed then (joining es, false) else (join remaining, true)

  -- The loop over the children.
  pub filter_all : Faults → Faults × Bool
  filter_all none_left = (none_left, false)
  filter_all (more e es) =
      let (filtered, child_changed) = filter_standard_stream_sync_errors e in
      let (remaining, changed) = filter_all es in
      (keep filtered remaining, child_changed || changed)

abbrev pub normalize_standard_stream_sync_error : Fault → Fault
normalize_standard_stream_sync_error e = (filter_standard_stream_sync_errors e).0
