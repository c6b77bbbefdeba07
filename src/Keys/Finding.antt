-- ===== src/Keys/Finding.antt =====
-- Where `findManagementKey` (go/dashboard/app.js) finds a key.
use mathlib.Core.Path.{subst}
use cpa_keeper_dashboard.Prelude.{
  ℕ, zero, suc, ◌+◌, ◌≤◌, ◌≡◌, ◌≢◌, refl, sym, ◌∙◌, ◌⊎◌, inl, inr, Bool, true, false, Option, none,
  some, [], ◌∷◌, ltb, if◌then◌else◌, arith,
}
use cpa_keeper_dashboard.Prelude.Json.{
  Json, null, bool, num, str, arr, obj, Items, no_items, item, Members, no_members, member,
  property,
}
use cpa_keeper_dashboard.Prelude.Text.{Text, trim}
use cpa_keeper_dashboard.Keys.{
  management_key, or_else, text_of, find_management_key, find_in_items, find_in_members,
}

pub or_else-cases : (a b k : Text) → k ≢ [] → or_else a b ≡ k → (a ≡ k) ⊎ (b ≡ k)
or_else-cases [] b k p e = inr e
or_else-cases (c ∷ a) b k p e = inl e

pub or_else-left : (a b : Text) → a ≢ [] → or_else a b ≢ []
or_else-left [] b p e = p refl
or_else-left (c ∷ a) b p e = p e

pub or_else-right : (a b : Text) → b ≢ [] → or_else a b ≢ []
or_else-right [] b p e = p e
or_else-right (c ∷ a) b p e = absurd (ground arith)

module _ {N : Type 0} where
  abbrev InItems : Json N → Items N → Type 0
  InItems v no_items = ⊥
  InItems v (item w xs) = (v ≡ w) ⊎ InItems v xs

  abbrev InMembers : Json N → Members N → Type 0
  InMembers v no_members = ⊥
  InMembers v (member n w ms) = (v ≡ w) ⊎ InMembers v ms

  abbrev IsIn : Json N → Json N → Type 0
  IsIn v (arr xs) = InItems v xs
  IsIn v (obj ms) = InMembers v ms
  IsIn v _ = ⊥

  -- An object whose `managementKey` is a text, `k` but for white space around it.
  abbrev HasKey : Json N → Text → Type 0
  HasKey (obj ms) k = (s : Text) × (property management_key ms ≡ some (str s)) × (trim s ≡ k)
  HasKey _ k = ⊥

  -- Such an object lies `n` levels deep.
  abbrev HasKeyAt : ℕ → Json N → Text → Type 0
  HasKeyAt zero v k = HasKey v k
  HasKeyAt (suc n) v k = (w : Json N) × IsIn w v × HasKeyAt n w k

  -- A text is the key itself, or an object at most five levels deep has it.
  abbrev pub HoldsKey : Json N → Text → Type 0
  HoldsKey v k = ((s : Text) × (v ≡ str s) × (trim s ≡ k)) ⊎ ((n : ℕ) × (n ≤ 5) × HasKeyAt n v k)

  abbrev FoundBelow : ℕ → Json N → Text → Type 0
  FoundBelow d v k = (n : ℕ) × (d + n ≤ 5) × HasKeyAt n v k

  own-HasKey :
      (ms : Members N) (o : Option (Json N)) (k : Text)
      → k ≢ []
      → property management_key ms ≡ o
      → text_of o ≡ k
      → HasKey (obj ms) k
  own-HasKey ms none k p q e = absurd (p (sym e))
  own-HasKey ms (some null) k p q e = absurd (p (sym e))
  own-HasKey ms (some (bool b)) k p q e = absurd (p (sym e))
  own-HasKey ms (some (num n)) k p q e = absurd (p (sym e))
  own-HasKey ms (some (str s)) k p q e = (s, q, e)
  own-HasKey ms (some (arr xs)) k p q e = absurd (p (sym e))
  own-HasKey ms (some (obj ns)) k p q e = absurd (p (sym e))

-- A test that is passed, where what it gives is not empty.
passed : (b : Bool) (a k : Text) → k ≢ [] → (if b then [] else a) ≡ k → (b ≡ false) × (a ≡ k)
passed true a k p e = absurd (p (sym e))
passed false a k p e = (refl, e)

arr_sound :
    {N : Type 0} (d : ℕ) (xs : Items N) (k : Text)
    → k ≢ []
    → (find_in_items (suc d) xs ≡ k → (v : Json N) × InItems v xs × FoundBelow (suc d) v k)
    → find_management_key d (arr xs) ≡ k
    → FoundBelow d (arr xs) k
unfolding find_management_key
arr_sound d xs k p nested e =
    let (shallow, q) = passed (ltb 5 d) _ k p e in
    let (w, i, (n, l, h)) = nested q in (suc n, omega arith, (w, i, h))

obj_sound :
    {N : Type 0} (d : ℕ) (ms : Members N) (k : Text)
    → k ≢ []
    → (find_in_members (suc d) ms ≡ k → (v : Json N) × InMembers v ms × FoundBelow (suc d) v k)
    → find_management_key d (obj ms) ≡ k
    → FoundBelow d (obj ms) k
unfolding find_management_key
obj_sound d ms k p nested e =
    let (shallow, q) = passed (ltb 5 d) _ k p e in
    elim (or_else-cases _ _ k p q) [
      | inl own ↦ (0, ground arith, own-HasKey ms _ k p refl own)
      | inr below ↦ let (w, i, (n, l, h)) = nested below in (suc n, omega arith, (w, i, h))
    ]

mutual
  unfolding find_management_key

  find_sound :
      {N : Type 0} (d : ℕ) (v : Json N) (k : Text)
      → k ≢ []
      → find_management_key (suc d) v ≡ k
      → FoundBelow (suc d) v k
  find_sound d null k p e = absurd (p (sym e))
  find_sound d (bool b) k p e = absurd (p (sym e))
  find_sound d (num n) k p e = absurd (p (sym e))
  find_sound d (str s) k p e = absurd (p (ground arith))
  find_sound d (arr xs) k p e = arr_sound (suc d) xs k p (items_sound (suc d) xs k p) e
  find_sound d (obj ms) k p e = obj_sound (suc d) ms k p (members_sound (suc d) ms k p) e

  items_sound :
      {N : Type 0} (d : ℕ) (xs : Items N) (k : Text)
      → k ≢ []
      → find_in_items (suc d) xs ≡ k
      → (v : Json N) × InItems v xs × FoundBelow (suc d) v k
  items_sound d no_items k p e = absurd (p (sym e))
  items_sound d (item v xs) k p e = elim (or_else-cases _ _ k p e) [
    | inl q ↦ (v, inl refl, find_sound d v k p q)
    | inr q ↦ let (w, i, h) = items_sound d xs k p q in (w, inr i, h)
  ]

  members_sound :
      {N : Type 0} (d : ℕ) (ms : Members N) (k : Text)
      → k ≢ []
      → find_in_members (suc d) ms ≡ k
      → (v : Json N) × InMembers v ms × FoundBelow (suc d) v k
  members_sound d no_members k p e = absurd (p (sym e))
  members_sound d (member n v ms) k p e = elim (or_else-cases _ _ k p e) [
    | inl q ↦ (v, inl refl, find_sound d v k p q)
    | inr q ↦ let (w, i, h) = members_sound d ms k p q in (w, inr i, h)
  ]

-- A test that is passed gives what it guards.
kept : (d : ℕ) (a : Text) → d ≤ 5 → a ≢ [] → (if ltb 5 d then [] else a) ≢ []
kept d a l p e = p (ground arith)

mutual
  unfolding find_management_key

  find_complete :
      {N : Type 0} (d n : ℕ) (v : Json N) (k : Text)
      → k ≢ []
      → d + n ≤ 5
      → HasKeyAt n v k
      → find_management_key d v ≢ []
  find_complete d zero (obj ms) k p l (s, q, e) =
      kept d _ (omega arith)
        (or_else-left (text_of (property management_key ms)) _ (rw q (λ n. p (sym e ∙ n))))
  find_complete d (suc n) (arr xs) k p l (w, i, h) =
      kept d _ (omega arith) (items_complete (suc d) n xs w k p (omega arith) i h)
  find_complete d (suc n) (obj ms) k p l (w, i, h) =
      kept d _ (omega arith)
        (or_else-right _ _ (members_complete (suc d) n ms w k p (omega arith) i h))
  find_complete d zero null k p l h = absurd h
  find_complete d zero (bool b) k p l h = absurd h
  find_complete d zero (num x) k p l h = absurd h
  find_complete d zero (str s) k p l h = absurd h
  find_complete d zero (arr xs) k p l h = absurd h
  find_complete d (suc n) null k p l (w, i, h) = absurd i
  find_complete d (suc n) (bool b) k p l (w, i, h) = absurd i
  find_complete d (suc n) (num x) k p l (w, i, h) = absurd i
  find_complete d (suc n) (str s) k p l (w, i, h) = absurd i

  items_complete :
      {N : Type 0} (d n : ℕ) (xs : Items N) (w : Json N) (k : Text)
      → k ≢ []
      → d + n ≤ 5
      → InItems w xs
      → HasKeyAt n w k
      → find_in_items d xs ≢ []
  items_complete d n no_items w k p l i h = absurd i
  items_complete d n (item v xs) w k p l (inl q) h =
      or_else-left _ _ (find_complete d n v k p l (subst (λ u. HasKeyAt n u k) q h))
  items_complete d n (item v xs) w k p l (inr i) h =
      or_else-right _ _ (items_complete d n xs w k p l i h)

  members_complete :
      {N : Type 0} (d n : ℕ) (ms : Members N) (w : Json N) (k : Text)
      → k ≢ []
      → d + n ≤ 5
      → InMembers w ms
      → HasKeyAt n w k
      → find_in_members d ms ≢ []
  members_complete d n no_members w k p l i h = absurd i
  members_complete d n (member m v ms) w k p l (inl q) h =
      or_else-left _ _ (find_complete d n v k p l (subst (λ u. HasKeyAt n u k) q h))
  members_complete d n (member m v ms) w k p l (inr i) h =
      or_else-right _ _ (members_complete d n ms w k p l i h)

find-HoldsKey :
    {N : Type 0} (v : Json N) → find_management_key 0 v ≢ [] → HoldsKey v (find_management_key 0 v)
unfolding find_management_key
find-HoldsKey null p = absurd (p refl)
find-HoldsKey (bool b) p = absurd (p refl)
find-HoldsKey (num n) p = absurd (p refl)
find-HoldsKey (str s) p = inl (s, refl, refl)
find-HoldsKey (arr xs) p =
    let (n, l, h) = arr_sound 0 xs _ p (items_sound 0 xs _ p) refl in inr (n, omega arith, h)
find-HoldsKey (obj ms) p =
    let (n, l, h) = obj_sound 0 ms _ p (members_sound 0 ms _ p) refl in inr (n, omega arith, h)

HoldsKey-find :
    {N : Type 0} (v : Json N) (k : Text) → k ≢ [] → HoldsKey v k → find_management_key 0 v ≢ []
unfolding find_management_key
HoldsKey-find v k p (inl (s, q, e)) = rw q (λ n. p (sym e ∙ n))
HoldsKey-find v k p (inr (n, l, h)) = find_complete 0 n v k p (omega arith) h

-- A key that is found is one that the value holds: the value is a text and the key is that text, or
-- an object at most five levels deep in it has a text as `managementKey`, which is the key but for
-- white space around it. Where the value holds a key that is not empty, one is found.
pub find_management_key-HoldsKey :
    {N : Type 0} (v : Json N)
    → (find_management_key 0 v ≢ [] → HoldsKey v (find_management_key 0 v))
      × ((k : Text) → k ≢ [] → HoldsKey v k → find_management_key 0 v ≢ [])
find_management_key-HoldsKey v = (find-HoldsKey v, HoldsKey-find v)
