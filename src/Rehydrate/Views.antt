-- ===== src/Rehydrate/Views.antt =====
-- What `Reader.Scan` returns, described without the functions that compute it.
use mathlib.Core.List.{Perm}
use mathlib.Core.List.Perm
use nexus_go_ccnf_ref.Base.{
  Text, ◌≡◌, refl, ◌∙◌, ap, ap₂, true, false, Option, none, some, List, [], ◌∷◌, ◌++◌, All,
  has_prefix, text_leb, arith, Bool-cases, inl, inr,
}
use nexus_go_ccnf_ref.Base.Map.{lookup, keys}
use nexus_go_ccnf_ref.Base.Sort.{sort_strings, IsSorted, sort_strings-IsSorted, sort_strings-perm}
use nexus_go_ccnf_ref.Runtime.Engine.{RuntimeState}
use nexus_go_ccnf_ref.Rehydrate.{
  filter_prefix, text_or_nil, Decoded, error, view, Route, view_of, decode_view, reader_scan,
}
use nexus_go_ccnf_ref.Rehydrate.Scanned.{push_front, views, reader_scan-views}

-- The key is the prefix and more.
abbrev pub StartsWith : Text → Text → Type 0
StartsWith p k = (rest : Text) × (k ≡ p ++ rest)

has_prefix-StartsWith : (k p : Text) → has_prefix k p ≡ true → StartsWith p k
unfolding has_prefix
has_prefix-StartsWith k [] h = (k, refl)
has_prefix-StartsWith [] (b ∷ p) h = cc h
has_prefix-StartsWith (a ∷ k) (b ∷ p) h =
    let (rest, e) = has_prefix-StartsWith k p (ground (arith, h)) in
    (rest, ap₂ ◌∷◌ (ground (arith, h)) e)

has_prefix-append : (p rest : Text) → has_prefix (p ++ rest) p ≡ true
unfolding has_prefix
has_prefix-append [] rest = refl
has_prefix-append (b ∷ p) rest = ground (arith, has_prefix-append p rest)

not-StartsWith : (k p : Text) → has_prefix k p ≡ false → ¬ StartsWith p k
not-StartsWith k p h (rest, e) = cc (h, ap (λ z. has_prefix z p) e, has_prefix-append p rest)

-- The keys with the prefix, each as often as the state holds it, in ascending order.
pub record IsScan (prefix : Text) (held ks : List Text) : Type 0 where
  pub sorted : IsSorted ks
  pub others : List Text
  pub all_held : Perm (ks ++ others) held
  pub fit : All (StartsWith prefix) ks
  pub none_left : All (λ k. ¬ StartsWith prefix k) others

All-filter_prefix {κ} :
    (P : Text → Type κ) (p : Text) (ks : List Text) → All P ks → All P (filter_prefix p ks)
unfolding filter_prefix
All-filter_prefix P p [] h = h
All-filter_prefix P p (k ∷ ks) h = elim (Bool-cases (has_prefix k p)) [
  | inl fits ↦ rw fits (h.0, All-filter_prefix P p ks h.1)
  | inr not ↦ rw not (All-filter_prefix P p ks h.1)
]

filter_prefix-IsSorted : (p : Text) (ks : List Text) → IsSorted ks → IsSorted (filter_prefix p ks)
unfolding filter_prefix
filter_prefix-IsSorted p [] h = h
filter_prefix-IsSorted p (k ∷ ks) h = elim (Bool-cases (has_prefix k p)) [
  | inl fits ↦
      rw fits
        (All-filter_prefix (λ y. text_leb k y ≡ true) p ks h.0, filter_prefix-IsSorted p ks h.1)
  | inr not ↦ rw not (filter_prefix-IsSorted p ks h.1)
]

filter_prefix-fit : (p : Text) (ks : List Text) → All (StartsWith p) (filter_prefix p ks)
unfolding filter_prefix
filter_prefix-fit p [] = tt
filter_prefix-fit p (k ∷ ks) = elim (Bool-cases (has_prefix k p)) [
  | inl fits ↦ rw fits (has_prefix-StartsWith k p fits, filter_prefix-fit p ks)
  | inr not ↦ rw not (filter_prefix-fit p ks)
]

move_front : (k : Text) (ks others : List Text) → Perm (ks ++ (k ∷ others)) (k ∷ (ks ++ others))
move_front k [] others = Perm.refl _
move_front k (j ∷ ks) others =
    Perm.trans (Perm.cons j (move_front k ks others)) (Perm.swap k j (ks ++ others))

-- The keys that the filter drops.
dropped :
    (p : Text) (ks : List Text)
    → (others : List Text) × Perm (filter_prefix p ks ++ others) ks
      × All (λ k. ¬ StartsWith p k) others
unfolding filter_prefix
dropped p [] = ([], Perm.refl [], tt)
dropped p (k ∷ ks) =
    let (others, perm, none_fits) = dropped p ks in
    elim (Bool-cases (has_prefix k p)) [
      | inl fits ↦ rw fits (others, Perm.cons k perm, none_fits)
      | inr not ↦ rw not (
        k ∷ others,
        Perm.trans (move_front k (filter_prefix p ks) others) (Perm.cons k perm),
        (not-StartsWith k p not, none_fits),
      )
    ]

filter_prefix-IsScan :
    (p : Text) (held : List Text) → IsScan p held (filter_prefix p (sort_strings held))
filter_prefix-IsScan p held =
    let (others, perm, none_fits) = dropped p (sort_strings held) in
    record {
      sorted = filter_prefix-IsSorted p (sort_strings held) (sort_strings-IsSorted held);
      others = others;
      all_held = Perm.trans perm (sort_strings-perm held);
      fit = filter_prefix-fit p (sort_strings held);
      none_left = none_fits;
    }

module _ {ℓ} {V : Type ℓ} where
  -- The first route whose prefix the key starts with decodes its value to this view.
  pub record DecodesTo (routes : List (Route V)) (k v : Text) (w : V) : Type ℓ where
    pub passed : List (Route V)
    pub route : Route V
    pub later : List (Route V)
    pub split : routes ≡ passed ++ (route ∷ later)
    pub unfit : All (λ r. ¬ StartsWith r.prefix k) passed
    pub fits : StartsWith route.prefix k
    pub decoded : route.decode k v ≡ view (some w)

  view_of-some : (d : Decoded V) (w : V) → view_of d ≡ some w → d ≡ view (some w)
  view_of-some error w h = cc h
  view_of-some (view o) w h = ap view h

  decode_view-DecodesTo :
      (routes : List (Route V)) (k v : Text) (w : V)
      → decode_view routes k v ≡ some w
      → DecodesTo routes k v w
  unfolding decode_view
  decode_view-DecodesTo [] k v w h = absurd (cc h)
  decode_view-DecodesTo (r ∷ routes) k v w h = elim (Bool-cases (has_prefix k r.prefix)) [
    | inl fits ↦ record {
      passed = [];
      route = r;
      later = routes;
      split = refl;
      unfit = tt;
      fits = has_prefix-StartsWith k r.prefix fits;
      decoded = view_of-some (r.decode k v) w (rw fits at h);
    }
    | inr not ↦
        let d = decode_view-DecodesTo routes k v w (rw not at h) in
        record {
          passed = r ∷ d.passed;
          route = d.route;
          later = d.later;
          split = ap (λ rs. r ∷ rs) d.split;
          unfit = (not-StartsWith k r.prefix not, d.unfit);
          fits = d.fits;
          decoded = d.decoded;
        }
  ]

  decode_view-append :
      (passed : List (Route V)) (r : Route V) (later : List (Route V)) (k v : Text)
      → All (λ q. ¬ StartsWith q.prefix k) passed
      → StartsWith r.prefix k
      → decode_view (passed ++ (r ∷ later)) k v ≡ view_of (r.decode k v)
  unfolding decode_view
  decode_view-append [] r later k v unfit (rest, e) =
      rw (ap (λ z. has_prefix z r.prefix) e ∙ has_prefix-append r.prefix rest) refl
  decode_view-append (q ∷ passed) r later k v unfit fits =
      elim (Bool-cases (has_prefix k q.prefix)) [
        | inl fit ↦ absurd (unfit.0 (has_prefix-StartsWith k q.prefix fit))
        | inr not ↦ rw not (decode_view-append passed r later k v unfit.1 fits)
      ]

  DecodesTo-decode_view :
      (routes : List (Route V)) (k v : Text) (w : V)
      → DecodesTo routes k v w
      → decode_view routes k v ≡ some w
  DecodesTo-decode_view routes k v w d =
      ap (λ rs. decode_view rs k v) d.split
      ∙ (decode_view-append d.passed d.route d.later k v d.unfit d.fits ∙ ap view_of d.decoded)

  -- The views of keys: one for each key that has one, in the order of the keys.
  pub data Listed (st : RuntimeState) (routes : List (Route V)) : List Text → List V → Type ℓ where
    no_keys : Listed st routes [] []
    viewed :
        {k : Text} {w : V} {ks : List Text} {ws : List V}
        → DecodesTo routes k (text_or_nil (lookup k st.entries)) w
        → Listed st routes ks ws
        → Listed st routes (k ∷ ks) (w ∷ ws)
    without :
        {k : Text} {ks : List Text} {ws : List V}
        → ((w : V) → ¬ DecodesTo routes k (text_or_nil (lookup k st.entries)) w)
        → Listed st routes ks ws
        → Listed st routes (k ∷ ks) ws

  module _ (st : RuntimeState) (routes : List (Route V)) where
    views-cons :
        (k : Text) (ks : List Text) (ws : List V) (o : Option V)
        → decode_view routes k (text_or_nil (lookup k st.entries)) ≡ o
        → Listed st routes ks ws
        → Listed st routes (k ∷ ks) (push_front o ws)
    views-cons k ks ws none e rest =
        without
          (λ w d.
            absurd (cc (e, DecodesTo-decode_view routes k (text_or_nil (lookup k st.entries)) w d)))
          rest
    views-cons k ks ws (some w) e rest =
        viewed (decode_view-DecodesTo routes k (text_or_nil (lookup k st.entries)) w e) rest

    views-Listed : (ks : List Text) → Listed st routes ks (views st routes ks)
    views-Listed [] = no_keys
    views-Listed (k ∷ ks) = views-cons k ks (views st routes ks) _ refl (views-Listed ks)

    -- The reader's scan ends. It visits the keys of the state that start with the prefix, each once
    -- for each entry, in ascending order, and returns in this order the views to which the first
    -- route that fits a key decodes its value; a key that no route fits, or whose decoder fails or
    -- returns nil, has none.
    pub reader_scan-IsScan :
        (prefix : Text)
        → (ks : List Text) × (ws : List V) × (reader_scan st routes prefix ≡ (ws, true))
          × IsScan prefix (keys st.entries) ks
          × Listed st routes ks ws
    reader_scan-IsScan prefix =
        let ks = filter_prefix prefix (sort_strings (keys st.entries)) in
        (
          ks,
          views st routes ks,
          reader_scan-views st routes prefix,
          filter_prefix-IsScan prefix (keys st.entries),
          views-Listed ks,
        )
