-- ===== src/Rehydrate/Account.antt =====
-- The account projection: each key `acct:<id>` with a decimal value is a balance.
use nexus_go_ccnf_ref.Base.Sets.{member}
use nexus_go_ccnf_ref.Base.SortBy.{member-sort_strings}
use nexus_go_ccnf_ref.Base.{
  ℕ, suc, ◌+◌, ◌-◌, ◌*◌, ◌^◌, Text, codes, text_eq, text_eq_iff, ◌≡◌, refl, ap, ◌∙◌, Bool, true,
  false, ◌||◌, ◌&&◌, Option, none, some, List, [], ◌∷◌, ◌++◌, length, has_prefix, if◌then◌else◌,
  leb, ltb, arith, Bool-cases, inl, inr,
}
use mathlib.Core.Path.{subst}
use nexus_go_ccnf_ref.Base.Map.{Map, lookup, set, keys, lookup-set, or_else, or_else-none}
use nexus_go_ccnf_ref.Base.Sort.{sort_strings}
use nexus_go_ccnf_ref.Runtime.Engine.{RuntimeState}
use nexus_go_ccnf_ref.Rehydrate.{snapshot_scan, for_next, filter_prefix, text_or_nil}
use nexus_go_ccnf_ref.Rehydrate.Scanned.{run_on, for_next-at}

abbrev step_digit : Option ℕ → ℕ → Option ℕ
step_digit none c = none
step_digit (some n) c = if leb 48 c && leb c 57 then some (10 * n + (c - 48)) else none

unfoldable pub digits_from : Option ℕ → Text → Option ℕ
digits_from o [] = o
digits_from o (c ∷ s) = digits_from (step_digit o c) s

abbrev pub in_uint64 : Option ℕ → Option ℕ
in_uint64 none = none
in_uint64 (some n) = if ltb n (2 ^ 64) then some n else none

-- `strconv.ParseUint(s, 10, 64)`; `none` is its error
unfoldable pub parse_uint : Text → Option ℕ
unfolding digits_from
parse_uint s = if text_eq s [] then none else in_uint64 (digits_from (some 0) s)

abbrev pub account_prefix : Text
account_prefix = codes "acct:"

-- `strings.TrimPrefix`, for a text that has the prefix
unfoldable pub trim : Text → Text → Text
trim s [] = s
trim [] (b ∷ t) = []
trim (a ∷ s) (b ∷ t) = trim s t

unfoldable pub trim_prefix : Text → Text → Text
unfolding trim
trim_prefix s p = if has_prefix s p then trim s p else s

-- The projection: the balances by id.
pub record AccountProjection : Type 0 where
  pub cache : Map ℕ

abbrev pub cached : Map ℕ → Text → Option ℕ → Map ℕ
cached cache id none = cache
cached cache id (some balance) = set id balance cache

-- the body of the loop; a value that is no number is passed over
unfoldable pub collect : Map ℕ → Text → Text → Map ℕ
unfolding parse_uint trim_prefix
collect cache k v = cached cache (trim_prefix k account_prefix) (parse_uint v)

unfoldable pub build_account_projection : RuntimeState → AccountProjection
build_account_projection snap =
    let it = snapshot_scan snap account_prefix in
    record { cache = (for_next (suc (length it.ks)) collect [] it).0 }

unfoldable pub get_balance : AccountProjection → Text → Option ℕ
get_balance p id = lookup id p.cache

unfoldable pub count : AccountProjection → ℕ
count p = length p.cache

pub record AccountBalance : Type 0 where
  pub id : Text
  pub balance : ℕ

unfoldable pub balances_of : Map ℕ → List AccountBalance
balances_of [] = []
balances_of ((id, balance) ∷ cache) = record { id = id; balance = balance } ∷ balances_of cache

-- in the order of the map
unfoldable pub all_balances : AccountProjection → List AccountBalance
unfolding balances_of
all_balances p = balances_of p.cache

length-balances_of : (cache : Map ℕ) → length (balances_of cache) ≡ length cache
unfolding balances_of
length-balances_of [] = refl
length-balances_of ((id, balance) ∷ cache) = ap suc (length-balances_of cache)

-- There are as many balances as `Count` says.
length-all_balances : (p : AccountProjection) → length (all_balances p) ≡ count p
unfolding all_balances count
length-all_balances p = length-balances_of p.cache

member-filter_prefix :
    (p : Text) (l : List Text) (k : Text)
    → member k (filter_prefix p l) ≡ (member k l && has_prefix k p)
unfolding member filter_prefix
member-filter_prefix p [] k = refl
member-filter_prefix p (x ∷ l) k = ground (arith, member-filter_prefix p l k, text_eq_iff x k)

abbrev is_some {ℓ} : {A : Type ℓ} → Option A → Bool
is_some none = false
is_some (some a) = true

member-keys {ℓ} : {V : Type ℓ} (m : Map V) (k : Text) → member k (keys m) ≡ is_some (lookup k m)
unfolding member keys lookup
member-keys [] k = refl
member-keys ((j, v) ∷ m) k = ground (arith, member-keys m k)

has_prefix-append : (p s : Text) → has_prefix (p ++ s) p ≡ true
unfolding has_prefix
has_prefix-append [] s = refl
has_prefix-append (c ∷ p) s = ground (arith, has_prefix-append p s)

trim-eq_iff : (p k id : Text) → has_prefix k p ≡ true → text_eq (trim k p) id ≡ text_eq k (p ++ id)
unfolding has_prefix trim text_eq
trim-eq_iff [] k id h = refl
trim-eq_iff (c ∷ p) [] id h = cc
trim-eq_iff (c ∷ p) (a ∷ k) id h = ground (arith, trim-eq_iff p k id)

-- the number that a key's value stands for
abbrev pub number_at : RuntimeState → Text → Option ℕ
number_at st k = parse_uint (text_or_nil (lookup k st.entries))

lookup-cached :
    (id j : Text) (o : Option ℕ) (cache : Map ℕ)
    → lookup id (cached cache j o)
      ≡ (if text_eq j id then or_else o (lookup id cache) else lookup id cache)
lookup-cached id j none cache = ground arith
lookup-cached id j (some n) cache = lookup-set id j n cache

-- All keys start with a prefix.
abbrev AllPrefixed : Text → List Text → Type 0
AllPrefixed p [] = Unit
AllPrefixed p (k ∷ ks) = (has_prefix k p ≡ true) × AllPrefixed p ks

filter_prefix-AllPrefixed : (p : Text) (ks : List Text) → AllPrefixed p (filter_prefix p ks)
unfolding filter_prefix
filter_prefix-AllPrefixed p [] = tt
filter_prefix-AllPrefixed p (k ∷ ks) = elim (Bool-cases (has_prefix k p)) [
  | inl starts ↦ rw starts (starts, filter_prefix-AllPrefixed p ks)
  | inr other ↦ rw other (filter_prefix-AllPrefixed p ks)
]

lookup-collect :
    (st : RuntimeState) (id k : Text) (cache : Map ℕ)
    → has_prefix k account_prefix ≡ true
    → lookup id (collect cache k (text_or_nil (lookup k st.entries))) ≡ (
        if text_eq k (account_prefix ++ id)
        then or_else (number_at st k) (lookup id cache)
        else lookup id cache)
unfolding collect trim_prefix
lookup-collect st id k cache h =
    rw (h, ← trim-eq_iff account_prefix k id h)
      (lookup-cached id (trim k account_prefix) (number_at st k) cache)

or_else-twice {ℓ} : {A : Type ℓ} (o p : Option A) → or_else o (or_else o p) ≡ or_else o p
or_else-twice none p = refl
or_else-twice (some a) p = refl

put_twice :
    (t b : Bool) (o o' p : Option ℕ)
    → (t ≡ true → o ≡ o')
    → (if b then or_else o' (if t then or_else o p else p) else (if t then or_else o p else p))
      ≡ (if t || b then or_else o' p else p)
put_twice true true o o' p h = rw (h refl) (or_else-twice o' p)
put_twice true false o o' p h = rw (h refl) refl
put_twice false b o o' p h = refl

-- The loop leaves, at an id, what the last round on its key has put there.
lookup-collected :
    (st : RuntimeState) (id q : Text) (ks : List Text) (cache : Map ℕ)
    → account_prefix ++ id ≡ q
    → AllPrefixed account_prefix ks
    → lookup id (run_on st collect cache ks)
      ≡ (if member q ks then or_else (number_at st q) (lookup id cache) else lookup id cache)
unfolding member
lookup-collected st id q [] cache e h = refl
lookup-collected st id q (k ∷ ks) cache e h =
    let ih =
      lookup-collected st id q ks (collect cache k (text_or_nil (lookup k st.entries))) e h.1 in
    let here =
      subst
        (λ t.
          lookup id (collect cache k (text_or_nil (lookup k st.entries)))
          ≡ (if text_eq k t then or_else (number_at st k) (lookup id cache) else lookup id cache))
        e (lookup-collect st id k cache h.0) in
    ih
    ∙ rw here (
        put_twice (text_eq k q) (member q ks) (number_at st k) (number_at st q) (lookup id cache)
          (λ same. ap (number_at st) ((text_eq_iff k q).0 same)))

-- the number that a value stands for, if there is one
abbrev pub number_of : Option Text → Option ℕ
number_of none = none
number_of (some v) = parse_uint v

and_true : (b : Bool) → (b && true) ≡ b
and_true b = ground arith

number-found :
    (o : Option Text)
    → (if is_some o then or_else (parse_uint (text_or_nil o)) none else none) ≡ number_of o
number-found none = refl
number-found (some v) = or_else-none (parse_uint v)

-- The balance of an id is the number that the value of its key, `acct:` and the id, stands for; an
-- id without such a key, or whose value is no number, has none.
pub get_balance-build_account_projection :
    (st : RuntimeState) (id : Text)
    → get_balance (build_account_projection st) id
      ≡ number_of (lookup (account_prefix ++ id) st.entries)
unfolding get_balance build_account_projection snapshot_scan lookup
get_balance-build_account_projection st id =
    let ks = filter_prefix account_prefix (sort_strings (keys st.entries)) in
    let q = account_prefix ++ id in
    let held =
      member-filter_prefix account_prefix (sort_strings (keys st.entries)) q
      ∙ ap (λ b. b && has_prefix q account_prefix)
          (member-sort_strings q (keys st.entries) ∙ member-keys st.entries q)
      ∙ ap (λ b. is_some (lookup q st.entries) && b) (has_prefix-append account_prefix id)
      ∙ and_true (is_some (lookup q st.entries)) in
    ap (λ c. lookup id c.0) (for_next-at ks st collect (length ks) 0 [] (omega arith))
    ∙ lookup-collected st id q ks [] refl
        (filter_prefix-AllPrefixed account_prefix (sort_strings (keys st.entries)))
    ∙ ap (λ b. if b then or_else (number_at st q) (lookup id []) else lookup id []) held
    ∙ number-found (lookup q st.entries)
