-- ===== src/Ccnf/Deltas/Loop.antt =====
-- What the loop of `ComputeStateDeltas` returns for resolved artifacts.
use nexus_go_ccnf_ref.Base.{Text, codes, ◌≡◌, refl, none, some, List, [], ◌∷◌, text_eq}
use nexus_go_ccnf_ref.Value.{Fields, obj, get, get_map}
use nexus_go_ccnf_ref.Value.Platform.{Platform}
use nexus_go_ccnf_ref.Ccnf.Result.{ok}
use nexus_go_ccnf_ref.Ccnf.Artifacts.{artifact}
use nexus_go_ccnf_ref.Ccnf.Artifacts.Loop.{Resolves}
use nexus_go_ccnf_ref.Ccnf.Deltas.{StateDelta, compute_patch_hash, compute_state_deltas}

-- The delta of the object at a key: the key, no hash before, the hash of the object, the object.
pub record IsDelta (p : Platform) (items : Fields) (k : Text) (d : StateDelta) : Type 0 where
  pub object : Fields
  pub found : get items k ≡ some (obj object)
  pub artifact : d.artifact_id ≡ k
  pub before : d.before_hash ≡ none
  pub after : d.after_hash ≡ compute_patch_hash p object
  pub patched : d.patch ≡ some object

-- The deltas of the keys, one for one.
abbrev pub AreDeltas : Platform → Fields → List Text → List StateDelta → Type 0
AreDeltas p items [] [] = Unit
AreDeltas p items (k ∷ ks) (d ∷ ds) = IsDelta p items k d × AreDeltas p items ks ds
AreDeltas p items _ _ = ⊥

get_map-artifact :
    (k : Text) (patch : Fields) → get_map (some (artifact k patch)) (codes "patch") ≡ some patch
unfolding get_map text_eq
get_map-artifact k patch = refl

module _ (p : Platform) (items m : Fields) where
  -- The assertion on the patch never fails, and each key has its delta.
  pub compute_state_deltas-Resolves :
      (ks : List Text) (arts : List Fields)
      → Resolves items ks arts
      → (ds : List StateDelta) × (compute_state_deltas p m ks arts ≡ ok ds)
        × AreDeltas p items ks ds
  unfolding compute_state_deltas
  compute_state_deltas-Resolves [] [] r = ([], refl, tt)
  compute_state_deltas-Resolves [] (a ∷ arts) r = absurd r
  compute_state_deltas-Resolves (k ∷ ks) [] r = absurd r
  compute_state_deltas-Resolves (k ∷ ks) (a ∷ arts) (patch, valid, at, is, tail) =
      let (ds, e, each) = compute_state_deltas-Resolves ks arts tail in
      let d : StateDelta = record {
        artifact_id = k;
        before_hash = none;
        after_hash = compute_patch_hash p patch;
        patch = some patch;
      } in
      (
        d ∷ ds,
        rw (is, get_map-artifact k patch, e) refl,
        (
          record {
            object = patch;
            found = at;
            artifact = refl;
            before = refl;
            after = refl;
            patched = refl;
          },
          each,
        ),
      )
