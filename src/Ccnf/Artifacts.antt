-- ===== src/Ccnf/Artifacts.antt =====
-- ccnf/artifacts.go: `type:id` references, resolved in the order of their keys.
pub mod Loop
pub mod References
use nexus_go_ccnf_ref.Base.{
  ℕ, zero, suc, Text, codes, text_eq, Bool, true, false, not, ◌&&◌, Option, none, some, List, [],
  ◌∷◌, if◌then◌else◌, ◌==◌, leb, length,
}
use nexus_go_ccnf_ref.Base.Sort.{sort_strings}
use nexus_go_ccnf_ref.Value.{Value, Fields, str, obj, end, field, get, get_map, field_keys}
use nexus_go_ccnf_ref.Ccnf.Result.{Result, ok, err, artifact_resolution, ◌>>=◌}

-- The text up to the first colon, and the text behind it.
unfoldable pub cut : Text → Text × Option Text
cut [] = ([], none)
cut (c ∷ s) = let (a, b) = cut s in if c == b':' then ([], some s) else (c ∷ a, b)

-- `strings.SplitN(s, ":", n)`, for n above 0
unfoldable pub split_n : ℕ → Text → List Text
unfolding cut
split_n zero s = []
split_n (suc zero) s = s ∷ []
split_n (suc (suc n)) s =
    let (a, b) = cut s in elim b [ none ↦ a ∷ [] | some rest ↦ a ∷ split_n (suc n) rest ]

unfoldable pub all_nonempty : List Text → Bool
all_nonempty [] = true
all_nonempty (s ∷ ss) = not (text_eq s []) && all_nonempty ss

unfoldable pub is_valid_artifact_id : Text → Bool
unfolding split_n all_nonempty
is_valid_artifact_id id = let parts = split_n 3 id in leb 2 (length parts) && all_nonempty parts

abbrev pub artifact : Text → Fields → Fields
artifact k patch = field (codes "artifact_id") (str k) (field (codes "patch") (obj patch) end)

-- The value at a key, as an object.
unfoldable pub patch_of : Option Value → Result Fields
patch_of (some (obj patch)) = ok patch
patch_of _ = err artifact_resolution

-- the loop over the keys
unfoldable pub resolve_keys : Fields → List Text → Result (List Text × List Fields)
resolve_keys items [] = ok ([], [])
resolve_keys items (k ∷ ks) =
    let rest = resolve_keys items ks in
    if is_valid_artifact_id k
    then (do
      patch ← patch_of (get items k)
      (refs, artifacts) ← rest
      ok (k ∷ refs, artifact k patch ∷ artifacts))
    else err artifact_resolution

-- A nil or an empty map has no keys, so the early return of the source is the empty loop.
unfoldable pub resolve_data : Option Fields → Result (List Text × List Fields)
unfolding resolve_keys
resolve_data none = ok ([], [])
resolve_data (some items) = resolve_keys items (sort_strings (field_keys items))

unfoldable pub resolve_artifacts : Fields → Result (List Text × List Fields)
unfolding resolve_data
resolve_artifacts m = resolve_data (get_map (get_map (some m) (codes "payload")) (codes "data"))
