-- ===== src/Usage/Overlap.antt =====
-- Calls of `UsageRecordManager` that overlap (internal/models/usage_record_manager.go). Each method looks
-- its record up before it takes a lock, and nothing guards the maps: between its look-up and its lock
-- another call can run from its start to its end, which is what is modelled here, or look up too. Go
-- may also stop a program for an access of a map during a write to it, which is left out.
use apron_gateway_p2p.Prelude.{
  ℕ, ◌+◌, ◌%◌, ◌≡◌, refl, ap, none, some, List, Bytes, insert, insert_self, IsRange,
}
use apron_gateway_p2p.Outcome.{ok, ◌>>=◌}
use apron_gateway_p2p.Models.{ApronUsageRecord, NodeReport}
use apron_gateway_p2p.RequestId.{generate_usage_record_key}
use apron_gateway_p2p.Usage.{
  UsageRecordManager, u64, charge, count_found, count_access, open_record, do_record,
  export_all_usage, nil_dereference,
}
use apron_gateway_p2p.Usage.Keeps.{IsValid}
use apron_gateway_p2p.Usage.Totals.{accesses, uploads, held, reading_of}
use apron_gateway_p2p.Usage.Export.{ExportResult, export_all_usage-ExportResult}

module _ (m : UsageRecordManager) (user_key service_id : Bytes) (now now' up up' : ℕ) where
  abbrev key : Bytes
  key = generate_usage_record_key service_id user_key

  -- the manager behind the first of them
  abbrev pub opened_first : UsageRecordManager
  opened_first = open_record m key user_key service_id now up

  -- behind both, where both looked up first
  abbrev pub opened_twice : UsageRecordManager
  opened_twice = open_record opened_first key user_key service_id now' up'

  -- Two first accesses of a user to a service that both look the record up before either of them goes on
  -- return both, but the second one's new record replaces the first one's: one access is counted, and the
  -- upload of the second alone. Where the second looks up behind the first, two accesses are counted, and
  -- both uploads, modulo 2^64.
  pub first_accesses_overlap :
      m.records key ≡ none
      → ((count_found m user_key service_id now up (m.records key) >>= λ a.
            count_found a user_key service_id now' up' (m.records key))
          ≡ ok opened_twice)
        × (held accesses key opened_twice ≡ 1)
        × (held uploads key opened_twice ≡ up' % u64)
        × ((a : UsageRecordManager) × ((count_access m user_key service_id now up >>= λ b.
                count_access b user_key service_id now' up')
              ≡ ok a)
            × (held accesses key a ≡ 2)
            × (held uploads key a ≡ (up % u64 + up') % u64))
  unfolding count_access count_found charge open_record do_record
  first_accesses_overlap absent =
      let r : ApronUsageRecord = record {
        user_key = user_key;
        service_id = service_id;
        start_ts = now;
        end_ts = 0;
        access_count = 1;
        upload_traffic = up % u64;
        download_traffic = 0;
      } in
      (
        rw absent refl,
        ap (reading_of accesses) (insert_self key _ opened_first.records),
        ap (reading_of uploads) (insert_self key _ opened_first.records),
        (
          record opened_first { records = insert key (do_record r 1 up' 0) opened_first.records },
          rw absent (rw (insert_self key r m.records) (rw (insert_self key tt m.locks) refl)),
          ap (reading_of accesses) (insert_self key _ opened_first.records),
          ap (reading_of uploads) (insert_self key _ opened_first.records),
        ),
      )

-- An access whose record was found, and which an export of the whole manager overtakes before the lock is
-- looked up, panics, for the lock is gone; and so do data whose record was looked up.
pub overtaken_by_export :
    (m m' : UsageRecordManager) (node_id : Bytes) (time : Bytes → ℕ) (keys : List Bytes)
    (report : NodeReport) (user_key service_id : Bytes) (rcd : ApronUsageRecord) (now up dw : ℕ)
    → IsValid m
    → IsRange keys m.locks
    → m.records (generate_usage_record_key service_id user_key) ≡ some rcd
    → export_all_usage m node_id time keys ≡ ok (report, m')
    → (count_found m' user_key service_id now up
          (m.records (generate_usage_record_key service_id user_key))
        ≡ nil_dereference)
      × (charge m'
            (generate_usage_record_key service_id user_key)
            (m'.locks (generate_usage_record_key service_id user_key))
            (m.records (generate_usage_record_key service_id user_key))
            0
            up
            dw
          ≡ nil_dereference)
unfolding count_found charge
overtaken_by_export m m' node_id time keys report user_key service_id rcd now up dw v range found
      e =
    let x : ExportResult node_id m (ok (report, m')) =
      rw e at (export_all_usage-ExportResult m node_id time keys v range) in
    let gone = x.no_lock (generate_usage_record_key service_id user_key) in
    (rw found (rw gone refl), rw gone refl)
