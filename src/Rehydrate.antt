-- ===== src/Rehydrate.antt =====
-- Reading a replayed state: runtime/rehydrate/{snapshot, registry, scan, reader}/*.go, and the
-- projection of account balances, projection/account/account.go.
pub mod Scanned
pub mod Views
pub mod Account
use nexus_go_ccnf_ref.Base.{
  ℕ, zero, suc, ◌-◌, Text, Bool, true, false, ◌||◌, Option, none, some, List, [], ◌∷◌, ◌++◌, length,
  get_elem?, has_prefix, if◌then◌else◌, leb, ltb, ◌==◌,
}
use nexus_go_ccnf_ref.Base.Map.{Map, lookup, keys}
use nexus_go_ccnf_ref.Base.Sort.{sort_strings}
use nexus_go_ccnf_ref.Runtime.Engine.{RuntimeState}

-- the methods `Get` and `Height` of the snapshot adapter
unfoldable pub snapshot_get : RuntimeState → Text → Option Text
snapshot_get s key = lookup key s.entries

abbrev pub snapshot_height : RuntimeState → ℕ
snapshot_height s = s.version

-- `sliceIterator`
pub record Iterator : Type 0 where
  pub ks : List Text
  pub state : RuntimeState
  pub idx : ℕ
  pub closed : Bool

-- the filtering loop of `Scan`
unfoldable pub filter_prefix : Text → List Text → List Text
filter_prefix p [] = []
filter_prefix p (k ∷ ks) =
    let rest = filter_prefix p ks in if has_prefix k p then k ∷ rest else rest

unfoldable pub snapshot_scan : RuntimeState → Text → Iterator
snapshot_scan s prefix = record {
  ks = filter_prefix prefix (sort_strings (keys s.entries));
  state = s;
  idx = 0;
  closed = false;
}

-- `Next`: the test, and the iterator that it leaves
unfoldable pub next : Iterator → Bool × Iterator
next it =
    if it.closed
    then (false, it)
    else (leb (suc it.idx) (length it.ks), record it { idx = suc it.idx })

abbrev pub text_or_nil : Option Text → Text
text_or_nil none = []
text_or_nil (some s) = s

-- The key at the position; nil in front of the first and behind the last.
unfoldable pub current : Iterator → Option Text
current it = if it.idx == 0 || ltb (length it.ks) it.idx then none else get_elem? it.ks (it.idx - 1)

unfoldable pub key : Iterator → Text
unfolding current
key it = text_or_nil (current it)

abbrev pub value_in : RuntimeState → Option Text → Text
value_in s none = []
value_in s (some k) = text_or_nil (lookup k s.entries)

unfoldable pub value : Iterator → Text
unfolding current
value it = value_in it.state (current it)

unfoldable pub close : Iterator → Iterator
close it = record it { closed = true }

-- `for it.Next() { s = body(s, it.Key(), it.Value()) }`, with fuel; the second part says that the
-- loop has ended by its test
unfoldable pub for_next {ℓ} : {S : Type ℓ} → ℕ → (S → Text → Text → S) → S → Iterator → S × Bool
for_next zero body s it = (s, false)
for_next (suc fuel) body s it =
    let (more, it') = next it in
    let rest = for_next fuel body (body s (key it') (value it')) it' in
    if more then rest else (s, true)

-- What a decoder returns: an error, or a view that may be nil.
pub data Decoded {ℓ} (V : Type ℓ) : Type ℓ where
  error : Decoded V
  view : Option V → Decoded V

pub record Route {ℓ} (V : Type ℓ) : Type ℓ where
  pub prefix : Text
  pub decode : Text → Text → Decoded V

module _ {ℓ} {V : Type ℓ} where
  -- `Decode`, and what `View` makes of it: nil on an error and where no route fits
  abbrev pub view_of : Decoded V → Option V
  view_of error = none
  view_of (view v) = v

  unfoldable pub decode_view : List (Route V) → Text → Text → Option V
  decode_view [] k v = none
  decode_view (r ∷ routes) k v =
      if has_prefix k r.prefix then view_of (r.decode k v) else decode_view routes k v

  -- the body of the loop of `Reader.Scan`
  abbrev pub push_view : List V → Option V → List V
  push_view vs none = vs
  push_view vs (some v) = vs ++ (v ∷ [])

  -- The loop ends behind the last key, so the number of keys bounds its rounds.
  unfoldable pub reader_scan : RuntimeState → List (Route V) → Text → List V × Bool
  reader_scan s routes prefix =
      let it = snapshot_scan s prefix in
      for_next (suc (length it.ks)) (λ vs k v. push_view vs (decode_view routes k v)) [] it
