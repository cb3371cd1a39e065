-- ===== src/Pgv/Search/Dfs.antt =====
-- What a call of `hasCycleDFS` leaves of the three sets, and what it answers.
use mathlib.Core.Path.{subst}
use nexus_go_ccnf_ref.Base.{
  ℕ, zero, suc, ◌≤◌, Text, text_eq, text_eq_iff, true, false, Bool-cases, none, some, List, [], ◌∷◌,
  ◌≡◌, refl, sym, ◌∙◌, arith, ◌⊎◌, inl, inr,
}
use nexus_go_ccnf_ref.Base.Map.{Map}
use nexus_go_ccnf_ref.Base.Sets.{member, member-delete, missing, missing-le, missing-lt}
use nexus_go_ccnf_ref.Pgv.Search.{
  neighbors, Colors, Found, enter, leave, look, continue, look_all, has_cycle_dfs,
}
use nexus_go_ccnf_ref.Pgv.Search.Walks.{IsNext, Walk, here, then_to, Cycle}
use nexus_go_ccnf_ref.Pgv.Search.Topological.{IsTopological, member-head, member-tail}

module _ (adj : Map (List Text)) where
  -- What a call that finds no cycle leaves of the sets.
  pub record Kept (c d : Colors) : Type 0 where
    pub gray : (k : Text) → member k d.gray ≡ member k c.gray
    pub black : (k : Text) → member k c.black ≡ true → member k d.black ≡ true
    pub white :
        (k : Text) → member k c.white ≡ true → (member k d.white ≡ true) ⊎ (member k d.black ≡ true)
    pub ordered : IsTopological adj d.black

  Kept_refl : (c : Colors) → IsTopological adj c.black → Kept c c
  Kept_refl c t = record { gray = λ k. refl; black = λ k h. h; white = λ k h. inl h; ordered = t }

  Kept_trans : (c d e : Colors) → Kept c d → Kept d e → Kept c e
  Kept_trans c d e h k = record {
    gray = λ x. k.gray x ∙ h.gray x;
    black = λ x m. k.black x (h.black x m);
    white = λ x m. elim (h.white x m) [ inl w ↦ k.white x w | inr b ↦ inr (k.black x b) ];
    ordered = k.ordered;
  }

  -- The call ends; with a cycle, or with what `P` says of the sets.
  abbrev pub Answers : (Colors → Type 0) → Found → Type 0
  Answers P none = ⊥
  Answers P (some (true, d)) = Cycle adj
  Answers P (some (false, d)) = P d

  Answers-continue :
      (P Q : Colors → Type 0) (m : Found) (rest : Colors → Found)
      → Answers P m
      → ((d : Colors) → P d → Answers Q (rest d))
      → Answers Q (continue m rest)
  Answers-continue P Q none rest h f = h
  Answers-continue P Q (some (true, d)) rest h f = h
  Answers-continue P Q (some (false, d)) rest h f = f d h

  Answers-map :
      (P Q : Colors → Type 0) (m : Found) → ((d : Colors) → P d → Q d) → Answers P m → Answers Q m
  Answers-map P Q none f h = h
  Answers-map P Q (some (true, d)) f h = h
  Answers-map P Q (some (false, d)) f h = f d h

  -- The gray nodes lie on walks to a node; `u` lists all targets of edges.
  pub record IsPath (u : List Text) (fuel : ℕ) (node : Text) (c : Colors) : Type 0 where
    pub leads : (g : Text) → member g c.gray ≡ true → (n : ℕ) × Walk adj g n node
    pub ordered : IsTopological adj c.black
    pub fuelled : missing u c.gray ≤ fuel

  pub record IsReady (u : List Text) (fuel : ℕ) (node : Text) (c : Colors) : Type 0 where
    pub path : IsPath u fuel node c
    pub listed : member node u ≡ true
    pub fresh : member node c.gray ≡ false

  pub record Passed (node : Text) (c d : Colors) : Type 0 where
    pub kept : Kept c d
    pub reached : member node d.black ≡ true

  pub record PassedAll (nodes : List Text) (c d : Colors) : Type 0 where
    pub kept : Kept c d
    pub reached : (k : Text) → member k nodes ≡ true → member k d.black ≡ true

  IsPath-Kept :
      (u : List Text) (fuel : ℕ) (node : Text) (c d : Colors)
      → Kept c d
      → IsPath u fuel node c
      → IsPath u fuel node d
  IsPath-Kept u fuel node c d k h = record {
    leads = λ g m. h.leads g (sym (k.gray g) ∙ m);
    ordered = k.ordered;
    fuelled = omega (arith, missing-le u c.gray d.gray (λ x m. k.gray x ∙ m), h.fuelled);
  }

  reached-cons :
      (next k : Text) (nodes : List Text) (f : Colors)
      → member next f.black ≡ true
      → (member k nodes ≡ true → member k f.black ≡ true)
      → member k (next ∷ nodes) ≡ true
      → member k f.black ≡ true
  unfolding member
  reached-cons next k nodes f h g m = elim (Bool-cases (text_eq next k)) [
    | inl same ↦ subst (λ z. member z f.black ≡ true) ((text_eq_iff next k).0 same) h
    | inr other ↦ g (rw other at m)
  ]

  module _ (u : List Text) (closed : (x y : Text) → IsNext adj x y → member y u ≡ true) (fuel : ℕ)
      (visit : Text → Colors → Found)
      (visits : (next : Text) (c : Colors)
        → IsReady u fuel next c
        → Answers (Passed next c) (visit next c)) where
    Answers-look :
        (node next : Text) (c : Colors)
        → IsNext adj node next
        → IsPath u fuel node c
        → Answers (Passed next c) (look visit next c)
    unfolding look
    Answers-look node next c e h = elim (Bool-cases (member next c.black)) [
      | inl done ↦ rw done (record { kept = Kept_refl c h.ordered; reached = done })
      | inr other ↦ elim (Bool-cases (member next c.gray)) [
        | inl on_path ↦
            let (n, w) = h.leads next on_path in
            rw (other, on_path) (record { node = next; size = n; walk = then_to w e })
        | inr fresh ↦
            rw (other, fresh)
              (visits next c (record {
                path = record {
                  leads = λ g m. let (n, w) = h.leads g m in (suc n, then_to w e);
                  ordered = h.ordered;
                  fuelled = h.fuelled;
                };
                listed = closed node next e;
                fresh = fresh;
              }))
      ]
    ]

    Answers-look_all :
        (node : Text) (nodes : List Text) (c : Colors)
        → ((y : Text) → member y nodes ≡ true → IsNext adj node y)
        → IsPath u fuel node c
        → Answers (PassedAll nodes c) (look_all visit nodes c)
    unfolding look_all
    Answers-look_all node [] c e h = record {
      kept = Kept_refl c h.ordered;
      reached = λ k m. unfold member in cc m;
    }
    Answers-look_all node (next ∷ nodes) c e h =
        Answers-continue (Passed next c) (PassedAll (next ∷ nodes) c) (look visit next c)
          (look_all visit nodes) (Answers-look node next c (e next (member-head next nodes)) h)
          (λ d passed.
            Answers-map (PassedAll nodes d) (PassedAll (next ∷ nodes) c) (look_all visit nodes d)
              (λ f all. record {
                kept = Kept_trans c d f passed.kept all.kept;
                reached = λ k m.
                    reached-cons next k nodes f (all.kept.black next passed.reached) (all.reached k)
                      m;
              })
              (Answers-look_all node nodes d (λ y m. e y (member-tail y next nodes m))
                (IsPath-Kept u fuel node c d passed.kept h)))

  IsPath-enter :
      (u : List Text) (fuel : ℕ) (node : Text) (c : Colors)
      → IsReady u (suc fuel) node c
      → IsPath u fuel node (enter node c)
  unfolding enter member
  IsPath-enter u fuel node c h = record {
    leads = λ g m. elim (Bool-cases (text_eq node g)) [
      | inl same ↦ (zero, subst (λ z. Walk adj g zero z) (sym ((text_eq_iff node g).0 same)) here)
      | inr other ↦ h.path.leads g (rw other at m)
    ];
    ordered = h.path.ordered;
    fuelled = omega (
      arith,
      missing-lt u c.gray (node ∷ c.gray) node (λ j m. member-tail j node c.gray m) h.listed h.fresh
          (member-head node c.gray),
      h.path.fuelled,
    );
  }

  Passed-leave :
      (u : List Text) (fuel : ℕ) (node : Text) (c d : Colors)
      → IsReady u fuel node c
      → PassedAll (neighbors adj node) (enter node c) d
      → Passed node c (leave node d)
  unfolding enter leave member
  Passed-leave u fuel node c d r h = record {
    kept = record {
      gray = λ k.
          member-delete k node d.gray ∙ ground (arith, h.kept.gray k, text_eq_iff node k, r.fresh);
      black = λ k m. member-tail k node d.black (h.kept.black k m);
      white = λ k m. ground (arith, m, h.kept.white k, member-delete k node c.white);
      ordered = (h.reached, h.kept.ordered);
    };
    reached = member-head node d.black;
  }

  module _ (u : List Text) (closed : (x y : Text) → IsNext adj x y → member y u ≡ true) where
    -- With fuel for the nodes that are not gray, a call ends.
    pub Answers-has_cycle_dfs :
        (fuel : ℕ) (node : Text) (c : Colors)
        → IsReady u fuel node c
        → Answers (Passed node c) (has_cycle_dfs fuel adj node c)
    unfolding has_cycle_dfs
    Answers-has_cycle_dfs zero node c h = omega (
      arith,
      missing-lt u c.gray (node ∷ c.gray) node (λ j m. member-tail j node c.gray m) h.listed h.fresh
          (member-head node c.gray),
      h.path.fuelled,
    )
    Answers-has_cycle_dfs (suc fuel) node c h =
        Answers-continue (PassedAll (neighbors adj node) (enter node c)) (Passed node c)
          (look_all (has_cycle_dfs fuel adj) (neighbors adj node) (enter node c))
          (λ d. some (false, leave node d))
          (Answers-look_all u closed fuel (has_cycle_dfs fuel adj)
            (λ next d r. Answers-has_cycle_dfs fuel next d r) node (neighbors adj node)
            (enter node c) (λ y m. m) (IsPath-enter u fuel node c h))
          (λ d all. Passed-leave u (suc fuel) node c d h all)
