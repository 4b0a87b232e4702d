-- ===== src/Usage/Totals.antt =====
-- What is charged is what is reported: runs of the methods of `UsageRecordManager`
-- (internal/models/usage_record_manager.go) with exports in between.
use apron_gateway_p2p.Prelude.{
  ℕ, ◌+◌, ◌%◌, ◌≡◌, refl, ap, sym, ◌∙◌, Option, none, some, List, [], ◌∷◌, ◌++◌, Bytes, get-insert,
  get-delete, bytes_eq, bytes_eq_iff, if◌then◌else◌, arith, Bool-cases, inl, inr,
}
use apron_gateway_p2p.Outcome.{ok-injective, ok}
use apron_gateway_p2p.Models.{ApronUsageRecord}
use apron_gateway_p2p.RequestId.{generate_usage_record_key}
use apron_gateway_p2p.Usage.{
  UsageRecordManager, u64, count_found, charge, open_record, do_record, stamp, export_one,
}
use apron_gateway_p2p.Usage.Keeps.{IsValid, key_of}

-- the three counters of a record
pub data Meter : Type 0 where
  accesses uploads downloads : Meter

abbrev pub reading : Meter → ApronUsageRecord → ℕ
reading accesses r = r.access_count
reading uploads r = r.upload_traffic
reading downloads r = r.download_traffic

abbrev pub reading_of : Meter → Option ApronUsageRecord → ℕ
reading_of x none = 0
reading_of x (some r) = reading x r

-- what the manager holds for a key
abbrev pub held : Meter → Bytes → UsageRecordManager → ℕ
held x k m = reading_of x (m.records k)

-- what reported records hold for a key
unfoldable pub reported : Meter → Bytes → List ApronUsageRecord → ℕ
reported x k [] = 0
reported x k (r ∷ rs) = (if bytes_eq (key_of r) k then reading x r else 0) + reported x k rs

abbrev pub pick : Meter → ℕ → ℕ → ℕ → ℕ
pick accesses a u d = a
pick uploads a u d = u
pick downloads a u d = d

abbrev pub at_key : Bytes → Bytes → ℕ → ℕ
at_key key k n = if bytes_eq key k then n else 0

do_record-reading :
    (x : Meter) (r : ApronUsageRecord) (count up dw : ℕ)
    → reading x (do_record r count up dw) ≡ (reading x r + pick x count up dw) % u64
unfolding do_record
do_record-reading accesses r count up dw = refl
do_record-reading uploads r count up dw = refl
do_record-reading downloads r count up dw = refl

-- A step moves the held reading of a key by what it charges to the key, modulo 2^64.
abbrev pub Moves : Meter → Bytes → ℕ → UsageRecordManager → UsageRecordManager → Type 0
Moves x k n m m' = held x k m' % u64 ≡ (held x k m + n) % u64

pub charge-Moves :
    (x : Meter) (k : Bytes) (m m' : UsageRecordManager) (key : Bytes) (lock : Option Unit)
    (o : Option ApronUsageRecord) (count up dw : ℕ)
    → m.records key ≡ o
    → charge m key lock o count up dw ≡ ok m'
    → Moves x k (at_key key k (pick x count up dw)) m m'
unfolding charge
charge-Moves x k m m' key none o count up dw e h = cc
charge-Moves x k m m' key (some l) none count up dw e h = cc
charge-Moves x k m m' key (some l) (some r) count up dw e h = rw (← ok-injective h) (
    rw get-insert (elim (Bool-cases (bytes_eq key k)) [
      | inl t ↦ rw t (
          rw (ap (reading_of x) (ap m.records (sym ((bytes_eq_iff key k).0 t)) ∙ e))
            (omega (arith, do_record-reading x r count up dw)))
      | inr f ↦ rw f (omega arith)
    ]))

open_record-Moves :
    (x : Meter) (k : Bytes) (m : UsageRecordManager) (user_key service_id : Bytes) (now up : ℕ)
    → m.records (generate_usage_record_key service_id user_key) ≡ none
    → Moves x k
        (at_key (generate_usage_record_key service_id user_key) k (pick x 1 up 0))
        m
        (open_record m (generate_usage_record_key service_id user_key) user_key service_id now up)
unfolding open_record
open_record-Moves x k m u s now up e =
    let key = generate_usage_record_key s u in
    rw get-insert (elim (Bool-cases (bytes_eq key k)) [
      | inl t ↦
          rw t
            (rw (ap (reading_of x) (ap m.records (sym ((bytes_eq_iff key k).0 t)) ∙ e)) (fresh x))
      | inr f ↦ rw f (omega arith)
    ])
  where
    fresh :
        (y : Meter)
        → reading y (record {
          user_key = u;
          service_id = s;
          start_ts = now;
          end_ts = 0;
          access_count = 1;
          upload_traffic = up % u64;
          download_traffic = 0;
        })
            % u64
          ≡ (0 + pick y 1 up 0) % u64
    fresh accesses = refl
    fresh uploads = omega arith
    fresh downloads = refl

pub count_found-Moves :
    (x : Meter) (k : Bytes) (m m' : UsageRecordManager) (user_key service_id : Bytes) (now up : ℕ)
    (o : Option ApronUsageRecord)
    → m.records (generate_usage_record_key service_id user_key) ≡ o
    → count_found m user_key service_id now up o ≡ ok m'
    → Moves x k (at_key (generate_usage_record_key service_id user_key) k (pick x 1 up 0)) m m'
unfolding count_found
count_found-Moves x k m m' u s now up none e h =
    rw (← ok-injective h) (open_record-Moves x k m u s now up e)
count_found-Moves x k m m' u s now up (some r) e h =
    let key = generate_usage_record_key s u in
    charge-Moves x k m m' key (m.locks key) (some r) 1 up 0 e h

pub reported-append :
    (x : Meter) (k : Bytes) (xs ys : List ApronUsageRecord)
    → reported x k (xs ++ ys) ≡ reported x k xs + reported x k ys
unfolding reported
reported-append x k [] ys = omega arith
reported-append x k (r ∷ xs) ys = omega (arith, reported-append x k xs ys)

reading-stamp : (x : Meter) (now : ℕ) (r : ApronUsageRecord) → reading x (stamp now r) ≡ reading x r
reading-stamp accesses now r = refl
reading-stamp uploads now r = refl
reading-stamp downloads now r = refl

abbrev pub total : Meter → Bytes → List ApronUsageRecord × UsageRecordManager → ℕ
total x k (out, m) = reported x k out + held x k m

-- A round of the export moves the record of its key to the report, and nothing else.
pub export_one-total :
    (x : Meter) (k : Bytes) (now : ℕ) (key : Bytes) (out : List ApronUsageRecord)
    (m : UsageRecordManager) (s' : List ApronUsageRecord × UsageRecordManager) (lock : Option Unit)
    (o : Option ApronUsageRecord)
    → IsValid m
    → m.records key ≡ o
    → export_one now key lock o (out, m) ≡ ok s'
    → total x k s' ≡ total x k (out, m)
unfolding export_one
export_one-total x k now key out m s' none o v e h = rw (← ok-injective h)
export_one-total x k now key out m s' (some l) none v e h = cc
export_one-total x k now key out m s' (some l) (some r) v e h = rw (← ok-injective h) (
    rw (reported-append x k out (stamp now r ∷ [])) (
      unfold reported in
      rw (v.keyed key r e, get-delete)
        (elim (Bool-cases (bytes_eq key k)) [
          | inl t ↦ rw t (
              rw (ap (reading_of x) (ap m.records (sym ((bytes_eq_iff key k).0 t)) ∙ e))
                (omega (arith, reading-stamp x now r)))
          | inr f ↦ rw f (omega arith)
        ])))
