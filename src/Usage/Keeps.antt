-- ===== src/Usage/Keeps.antt =====
-- The well-formedness of a `UsageRecordManager` (internal/models/usage_record_manager.go).
use apron_gateway_p2p.Prelude.{
  ℕ, ◌≡◌, refl, sym, ◌∙◌, Bool, true, false, Option, none, some, Bytes, has, insert, delete,
  bytes_eq_iff, map_laws, has-some, has-elim, has-empty, has-none, not-has, arith,
}
use apron_gateway_p2p.Outcome.{Outcome, ok, err, panic}
use apron_gateway_p2p.Models.{ApronUsageRecord}
use apron_gateway_p2p.RequestId.{generate_usage_record_key}
use apron_gateway_p2p.Usage.{
  UsageRecordManager, init, count_access, count_found, charge_data, charge, open_record, do_record,
}

abbrev pub key_of : ApronUsageRecord → Bytes
key_of r = generate_usage_record_key r.service_id r.user_key

-- Every record has its lock and no lock is left over; a record stands at its own key.
pub record IsValid (m : UsageRecordManager) : Type 0 where
  pub paired : (k : Bytes) → has m.locks k ≡ has m.records k
  pub keyed : (k : Bytes) (r : ApronUsageRecord) → m.records k ≡ some r → key_of r ≡ k

pub IsValid-init : IsValid init
unfolding init
IsValid-init = record {
  paired = λ k. has-empty Unit k ∙ sym (has-empty ApronUsageRecord k);
  keyed = λ k r h. cc;
}

module _ (m : UsageRecordManager) (v : IsValid m) where
  put-IsValid :
      (key : Bytes) (r r' : ApronUsageRecord)
      → m.records key ≡ some r
      → key_of r' ≡ key_of r
      → IsValid (record m { records = insert key r' m.records })
  put-IsValid key r r' found same = record {
    paired = λ k.
        simp map_laws
          (ground (arith, v.paired k, has-some m.records key r found, bytes_eq_iff key k));
    keyed =
        λ k x. simp map_laws (ground (arith, v.keyed k x, v.keyed key r found, bytes_eq_iff key k));
  }

  open_record-IsValid :
      (user_key service_id : Bytes) (now up : ℕ)
      → IsValid
          (open_record m (generate_usage_record_key service_id user_key) user_key service_id now up)
  unfolding open_record
  open_record-IsValid u s now up = record {
    paired = λ k. simp map_laws (ground (arith, v.paired k));
    keyed = λ k x.
        simp map_laws (ground (arith, v.keyed k x, bytes_eq_iff (generate_usage_record_key s u) k));
  }

  pub drop-IsValid :
      (key : Bytes)
      → IsValid (record { records = delete key m.records; locks = delete key m.locks })
  drop-IsValid key = record {
    paired = λ k. simp map_laws (ground (arith, v.paired k));
    keyed = λ k x. simp map_laws (ground (arith, v.keyed k x));
  }

-- A step that must return, and keep the invariant.
abbrev pub Keeps : Outcome UsageRecordManager → Type 0
Keeps (ok m) = IsValid m
Keeps (err e) = ⊥
Keeps (panic e) = ⊥

lock_of :
    (m : UsageRecordManager)
    → IsValid m
    → (key : Bytes) (r : ApronUsageRecord) → m.records key ≡ some r
    → m.locks key ≡ some tt
lock_of m v key r found =
    let (lock, there) = has-elim m.locks key (v.paired key ∙ has-some m.records key r found) in
    there

charge-Keeps :
    (m : UsageRecordManager)
    → IsValid m
    → (key : Bytes) (r : ApronUsageRecord) (count up dw : ℕ) → m.records key ≡ some r
    → Keeps (charge m key (m.locks key) (some r) count up dw)
unfolding charge do_record
charge-Keeps m v key r count up dw found =
    rw (lock_of m v key r found) (put-IsValid m v key r _ found refl)

count_found-Keeps :
    (m : UsageRecordManager)
    → IsValid m
    → (user_key service_id : Bytes) (now up : ℕ) (o : Option ApronUsageRecord)
    → m.records (generate_usage_record_key service_id user_key) ≡ o
    → Keeps (count_found m user_key service_id now up o)
unfolding count_found
count_found-Keeps m v u s now up none e = open_record-IsValid m v u s now up
count_found-Keeps m v u s now up (some r) e =
    charge-Keeps m v (generate_usage_record_key s u) r 1 up 0 e

-- Counting an access in a well-formed manager neither fails nor panics, and keeps the invariant.
pub count_access-Keeps :
    (m : UsageRecordManager)
    → IsValid m
    → (user_key service_id : Bytes) (now up : ℕ) → Keeps (count_access m user_key service_id now up)
unfolding count_access
count_access-Keeps m v u s now up = count_found-Keeps m v u s now up _ refl

-- what a charge of data comes to: it needs a record for its key
abbrev pub Charges : UsageRecordManager → Bytes → Outcome UsageRecordManager → Type 0
Charges m key (ok m') = IsValid m' × (has m.records key ≡ true)
Charges m key (err e) = ⊥
Charges m key (panic e) = has m.records key ≡ false

charge-Charges :
    (m : UsageRecordManager)
    → IsValid m
    → (key : Bytes) (count up dw : ℕ) (o : Option ApronUsageRecord) → m.records key ≡ o
    → Charges m key (charge m key (m.locks key) o count up dw)
unfolding charge do_record
charge-Charges m v key count up dw none e =
    rw (not-has m.locks key (v.paired key ∙ has-none m.records key e)) (has-none m.records key e)
charge-Charges m v key count up dw (some r) e =
    rw (lock_of m v key r e) (put-IsValid m v key r _ e refl, has-some m.records key r e)

pub charge_data-Charges :
    (m : UsageRecordManager)
    → IsValid m
    → (key : Bytes) (size : ℕ) (is_client_to_service : Bool)
    → Charges m key (charge_data m key size is_client_to_service)
unfolding charge_data
charge_data-Charges m v key size true = charge-Charges m v key 0 size 0 _ refl
charge_data-Charges m v key size false = charge-Charges m v key 0 0 size _ refl
