-- ===== src/HttpApi/Ledgers.antt =====
-- internal/httpapi/server.go: GetHealthz, InitLedger, GetLedgerHead and GetRecord.
use chain_application.Prelude.{
  Bytes, Bool, not, Option, none, some, Result, ok, err, ◌>>◌, fail_if, ascii, encode_hex, ℤ,
  of_uint64, if◌then◌else◌,
}
use chain_application.Ledger.Wires.{Libraries}
use chain_application.Ledger.Event.{previous_digest}
use chain_application.Ledger.Record.{StructuralRecord}
use chain_application.Ledger.Chain.{ChainState}
use chain_application.LedgerStore.{StoreError, record_not_found, head, stored_record}
use chain_application.Admission.{Environment, Admitted, ledger_already_initialized, init_ledger}
use chain_application.HttpApi.{
  Refusal, Response, Server, or_refuse, parse_hex32, success, refused, failed,
  admission_unavailable, store_unavailable, invalid_ledger_id, invalid_record_digest,
  already_initialized, uninitialized_ledger, unknown_record, admission_error, store_error,
}

pub record InitLedgerResponse : Type 0 where
  pub ledger_id : Bytes
  pub sequence_number : ℤ
  pub record_digest : Bytes
  pub admitted_at_unix_ms : ℤ

pub record HeadResponse : Type 0 where
  pub ledger_id : Bytes
  pub sequence_number : ℤ
  pub record_digest : Bytes

pub record RecordResponse : Type 0 where
  pub record_digest : Bytes
  pub ledger_id : Bytes
  pub sequence_number : ℤ
  pub previous_record_digest : Option Bytes
  pub event_kind : ℤ
  pub payload_version : ℤ
  pub admitted_at_unix_ms : ℤ
  pub signer_key_reference : Bytes
  pub record_bytes_hex : Bytes

abbrev pub get_healthz : Response Bytes
get_healthz = success 200 (ascii "ok")

-- The guards of a handler, with the 32 bytes that it reads: of the pointer and of the text.
unfoldable pub guarded_hex32 : Bool → Refusal → Refusal → Bytes → Result Refusal Bytes
guarded_hex32 available unavailable invalid text = do
  fail_if (not available) unavailable
  or_refuse invalid (parse_hex32 text)

module _ (libraries : Libraries) (environment : Environment) (server : Server) where
  open environment use {database}
  open database use {World}

  abbrev initialized_response :
      Bytes → Admitted libraries environment → World × Response InitLedgerResponse
  initialized_response id (world, ok r) = (
    world,
    success 201 (record {
      ledger_id = encode_hex id;
      sequence_number = of_uint64 r.event.sequence;
      record_digest = encode_hex r.record_digest;
      admitted_at_unix_ms = of_uint64 r.event.admitted_at_unix_ms;
    }),
  )
  initialized_response id (world, err ledger_already_initialized) =
      (world, refused 409 already_initialized)
  initialized_response id (world, err e) = (world, failed (admission_error e))

  unfoldable pub serve_init_ledger : Bytes → World → World × Response InitLedgerResponse
  serve_init_ledger ledger_id world =
      elim (guarded_hex32 server.has_admission admission_unavailable invalid_ledger_id ledger_id) [
        | err r ↦ (world, refused 400 r)
        | ok id ↦ initialized_response id (init_ledger libraries environment id world)
      ]

  abbrev head_response :
      Bytes → World × Result StoreError ChainState → World × Response HeadResponse
  head_response id (world, err e) = (world, failed (store_error e))
  head_response id (world, ok state) =
      if not state.initialized then (world, refused 404 uninitialized_ledger) else (
        world,
        success 200 (record {
          ledger_id = encode_hex id;
          sequence_number = of_uint64 state.last_sequence;
          record_digest = encode_hex state.last_record_digest;
        }),
      )

  unfoldable pub get_ledger_head : Bytes → World → World × Response HeadResponse
  get_ledger_head ledger_id world =
      elim (guarded_hex32 server.has_store store_unavailable invalid_ledger_id ledger_id) [
        | err r ↦ (world, refused 404 r)
        | ok id ↦ head_response id (head libraries database id world)
      ]

  abbrev pub record_body : Bytes → StructuralRecord → RecordResponse
  record_body digest r = record {
    record_digest = encode_hex digest;
    ledger_id = encode_hex r.event.ledger_id;
    sequence_number = of_uint64 r.event.sequence;
    previous_record_digest = elim (previous_digest r.event) [
      | none ↦ none
      | some d ↦ some (encode_hex d)
    ];
    event_kind = of_uint64 r.event.kind;
    payload_version = of_uint64 r.event.payload_version;
    admitted_at_unix_ms = of_uint64 r.event.admitted_at_unix_ms;
    signer_key_reference = r.signer_key_reference;
    record_bytes_hex = encode_hex r.bytes;
  }

  abbrev record_response :
      Bytes → World × Result StoreError StructuralRecord → World × Response RecordResponse
  record_response digest (world, ok r) = (world, success 200 (record_body digest r))
  record_response digest (world, err record_not_found) = (world, refused 404 unknown_record)
  record_response digest (world, err e) = (world, failed (store_error e))

  unfoldable pub get_record : Bytes → World → World × Response RecordResponse
  get_record record_digest world =
      elim (guarded_hex32 server.has_store store_unavailable invalid_record_digest record_digest) [
        | err r ↦ (world, refused 404 r)
        | ok digest ↦ record_response digest (stored_record libraries database digest world)
      ]
