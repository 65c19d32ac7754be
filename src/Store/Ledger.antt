-- ===== src/Store/Ledger.antt =====
-- What the writes and reads of a store promise, without its tables and keys: a ledger of functions of
-- a SAID, of a prefix and a sequence number, or of a name.
use affinidi_keri_rs.Prelude.{
  ℕ, ◌<◌, String, ◌≡◌, ◌&&◌, Option, none, some, List, [], ◌∷◌, if◌then◌else◌, ◌==◌, nat_eq,
  string_eq, pair_eq, u64_mod,
}
use affinidi_keri_rs.Prelude.Result.{ok, ◌>>=◌}
use affinidi_keri_rs.Crypto.Extern.{Bytes}
use affinidi_keri_rs.Store.{DbResult, KeriStore}

pub record Ledger : Type 0 where
  pub event : String → Option Bytes
  pub datetime : String → Option String
  pub signatures : String → Option Bytes
  pub witness_sigs : String → Option Bytes
  pub receipts : String → Option Bytes
  pub state : String → Option Bytes
  pub hab : String → Option Bytes
  pub entry : String → ℕ → Option String
  pub first_seen : String → ℕ → Option String
  pub out_of_order : String → ℕ → Option Bytes
  pub partially_signed : String → ℕ → Option Bytes

-- The writes of the interface, with their arguments.
pub data Write : Type 0 where
  put_event put_signatures put_witness_sigs put_receipts put_state put_hab : String → Bytes → Write
  put_datetime : String → String → Write
  del_hab : String → Write
  append_kel put_first_seen : String → ℕ → String → Write
  put_escrow_ooo put_escrow_ps : String → ℕ → Bytes → Write
  del_escrow_ooo del_escrow_ps : String → ℕ → Write
  store_event : String → Bytes → String → ℕ → Option Bytes → Write
  store_event_with_hab : String → Bytes → String → ℕ → Option Bytes → String → Bytes → Write

-- A function with another value at one argument, or at one place of a log.
abbrev pub at : {A : Type 0} → (String → Option A) → String → Option A → String → Option A
at f k v i = if i == k then v else f i

abbrev pub at_place :
    {A : Type 0} → (String → ℕ → Option A) → String → ℕ → Option A → String → ℕ → Option A
at_place f prefix sn v q m = if q == prefix && m == sn then v else f q m

abbrev pub signed : (String → Option Bytes) → String → Option Bytes → String → Option Bytes
signed f said none = f
signed f said (some sigs) = at f said (some sigs)

-- The event, its place in both logs and its signatures.
abbrev pub with_event : Ledger → String → Bytes → String → ℕ → Option Bytes → Ledger
with_event l said raw prefix sn sigs = record l {
  event = at l.event said (some raw);
  entry = at_place l.entry prefix sn (some said);
  first_seen = at_place l.first_seen prefix sn (some said);
  signatures = signed l.signatures said sigs;
}

unfoldable pub write : Ledger → Write → Ledger
write l (put_event k v) = record l { event = at l.event k (some v) }
write l (put_datetime k v) = record l { datetime = at l.datetime k (some v) }
write l (put_signatures k v) = record l { signatures = at l.signatures k (some v) }
write l (put_witness_sigs k v) = record l { witness_sigs = at l.witness_sigs k (some v) }
write l (put_receipts k v) = record l { receipts = at l.receipts k (some v) }
write l (put_state k v) = record l { state = at l.state k (some v) }
write l (put_hab k v) = record l { hab = at l.hab k (some v) }
write l (del_hab k) = record l { hab = at l.hab k none }
write l (append_kel p n v) = record l { entry = at_place l.entry p n (some v) }
write l (put_first_seen p n v) = record l { first_seen = at_place l.first_seen p n (some v) }
write l (put_escrow_ooo p n v) = record l { out_of_order = at_place l.out_of_order p n (some v) }
write l (del_escrow_ooo p n) = record l { out_of_order = at_place l.out_of_order p n none }
write l (put_escrow_ps p n v) = record l {
  partially_signed = at_place l.partially_signed p n (some v);
}
write l (del_escrow_ps p n) = record l { partially_signed = at_place l.partially_signed p n none }
write l (store_event said raw p n sigs) = with_event l said raw p n sigs
write l (store_event_with_hab said raw p n sigs k v) =
    let stored = with_event l said raw p n sigs in record stored { hab = at l.hab k (some v) }

unfoldable pub write_all : Ledger → List Write → Ledger
unfolding write
write_all l [] = l
write_all l (w ∷ ws) = write_all (write l w) ws

-- A sequence number is a `u64`.
abbrev pub InRange : Write → Type 0
InRange (append_kel p n v) = n < u64_mod
InRange (put_first_seen p n v) = n < u64_mod
InRange (put_escrow_ooo p n v) = n < u64_mod
InRange (del_escrow_ooo p n) = n < u64_mod
InRange (put_escrow_ps p n v) = n < u64_mod
InRange (del_escrow_ps p n) = n < u64_mod
InRange (store_event said raw p n sigs) = n < u64_mod
InRange (store_event_with_hab said raw p n sigs k v) = n < u64_mod
InRange _ = Unit

-- The same writes on a store.
module _ {S : Type 0} (o : KeriStore S) where
  unfoldable pub perform : S → Write → DbResult S
  perform s (put_event k v) = o.put_event s k v
  perform s (put_datetime k v) = o.put_datetime s k v
  perform s (put_signatures k v) = o.put_signatures s k v
  perform s (put_witness_sigs k v) = o.put_witness_sigs s k v
  perform s (put_receipts k v) = o.put_receipts s k v
  perform s (put_state k v) = o.put_state s k v
  perform s (put_hab k v) = o.put_hab s k v
  perform s (del_hab k) = o.del_hab s k
  perform s (append_kel p n v) = o.append_kel s p n v
  perform s (put_first_seen p n v) = o.put_first_seen s p n v
  perform s (put_escrow_ooo p n v) = o.put_escrow_ooo s p n v
  perform s (del_escrow_ooo p n) = o.del_escrow_ooo s p n
  perform s (put_escrow_ps p n v) = o.put_escrow_ps s p n v
  perform s (del_escrow_ps p n) = o.del_escrow_ps s p n
  perform s (store_event said raw p n sigs) = o.store_event s said raw p n sigs
  perform s (store_event_with_hab said raw p n sigs k v) =
      o.store_event_with_hab s said raw p n sigs k v

  unfoldable pub perform_all : S → List Write → DbResult S
  unfolding perform
  perform_all s [] = ok s
  perform_all s (w ∷ ws) = do next ← perform s w; perform_all next ws

  -- What every read returns on a state, for each place with a sequence number that is a `u64`.
  pub record Reads (s : S) (l : Ledger) : Type 0 where
    pub event : (k : String) (r : Option Bytes) → o.get_event s k ≡ ok r → r ≡ l.event k
    pub datetime : (k : String) (r : Option String) → o.get_datetime s k ≡ ok r → r ≡ l.datetime k
    pub signatures :
        (k : String) (r : Option Bytes) → o.get_signatures s k ≡ ok r → r ≡ l.signatures k
    pub witness_sigs :
        (k : String) (r : Option Bytes) → o.get_witness_sigs s k ≡ ok r → r ≡ l.witness_sigs k
    pub receipts : (k : String) (r : Option Bytes) → o.get_receipts s k ≡ ok r → r ≡ l.receipts k
    pub state : (k : String) (r : Option Bytes) → o.get_state s k ≡ ok r → r ≡ l.state k
    pub hab : (k : String) (r : Option Bytes) → o.get_hab s k ≡ ok r → r ≡ l.hab k
    pub entry :
        (p : String) (n : ℕ) (r : Option String)
        → n < u64_mod
        → o.get_kel_said s p n ≡ ok r
        → r ≡ l.entry p n
    pub first_seen :
        (p : String) (n : ℕ) (r : Option String)
        → n < u64_mod
        → o.get_first_seen s p n ≡ ok r
        → r ≡ l.first_seen p n
    pub out_of_order :
        (p : String) (n : ℕ) (r : Option Bytes)
        → n < u64_mod
        → o.get_escrow_ooo s p n ≡ ok r
        → r ≡ l.out_of_order p n
    pub partially_signed :
        (p : String) (n : ℕ) (r : Option Bytes)
        → n < u64_mod
        → o.get_escrow_ps s p n ≡ ok r
        → r ≡ l.partially_signed p n
