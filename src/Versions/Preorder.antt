-- ===== src/Versions/Preorder.antt =====
-- The order of versions is an order: `compareVersion` of internal/updater/updater.go.
use kiosk_mate.Common.{
  ℕ, ◌≡◌, refl, sym, subst, ◌∙◌, ◌+◌, ◌-◌, ◌%◌, ◌^◌, ◌<◌, ◌≤◌, ◌⊎◌, All, inl, inr, dec_lt, ltb,
  ◌==◌, if◌then◌else◌, Option, none, some, List, [], ◌∷◌, Text, atoi, arith, ℤ,
}
use kiosk_mate.Versions.{
  Order, before, same, after, ◌then_by◌, order_ℕ, order_ℤ, order_difference, order_text,
  order_parts, order_read, order_identifiers, order_labels, compare_version, version_parts,
  label_of, without_v, prerelease_identifiers,
}

-- What the orders of a and b, and of b and c, say of that of a and c.
abbrev pub Follows : Order → Order → Order → Type 0
Follows same y z = z ≡ y
Follows before same z = z ≡ before
Follows before before z = z ≡ before
Follows before after z = Unit
Follows after same z = z ≡ after
Follows after after z = z ≡ after
Follows after before z = Unit

then_by-Follows :
    (x y z x' y' z' : Order)
    → Follows x y z
    → Follows x' y' z'
    → Follows (x then_by x') (y then_by y') (z then_by z')
then_by-Follows same same z x' y' z' h g = rw h g
then_by-Follows same before z before y' z' h g = rw h refl
then_by-Follows same before z same y' z' h g = rw h refl
then_by-Follows same before z after y' z' h g = tt
then_by-Follows same after z after y' z' h g = rw h refl
then_by-Follows same after z same y' z' h g = rw h refl
then_by-Follows same after z before y' z' h g = tt
then_by-Follows before same z x' before z' h g = rw h refl
then_by-Follows before same z x' same z' h g = rw h refl
then_by-Follows before same z x' after z' h g = tt
then_by-Follows before before z x' y' z' h g = rw h refl
then_by-Follows before after z x' y' z' h g = tt
then_by-Follows after same z x' after z' h g = rw h refl
then_by-Follows after same z x' same z' h g = rw h refl
then_by-Follows after same z x' before z' h g = tt
then_by-Follows after after z x' y' z' h g = rw h refl
then_by-Follows after before z x' y' z' h g = tt

order_ℕ-Follows : (a b c : ℕ) → Follows (order_ℕ a b) (order_ℕ b c) (order_ℕ a c)
order_ℕ-Follows a b c = ground arith

order_ℤ-Follows : (a b c : ℤ) → Follows (order_ℤ a b) (order_ℤ b c) (order_ℤ a c)
order_ℤ-Follows a b c = ground arith

first_before-Follows : (y : Order) → Follows before y before
first_before-Follows before = refl
first_before-Follows same = refl
first_before-Follows after = tt

last_after-Follows : (x : Order) → Follows x after after
last_after-Follows before = tt
last_after-Follows same = refl
last_after-Follows after = refl

first_after-Follows : (y : Order) → Follows after y after
first_after-Follows before = tt
first_after-Follows same = refl
first_after-Follows after = refl

last_before-Follows : (x : Order) → Follows x before before
last_before-Follows before = refl
last_before-Follows same = refl
last_before-Follows after = tt

order_text-Follows : (s t u : Text) → Follows (order_text s t) (order_text t u) (order_text s u)
unfolding order_text
order_text-Follows [] [] u = refl
order_text-Follows [] (b ∷ t) [] = tt
order_text-Follows [] (b ∷ t) (c ∷ u) = first_before-Follows _
order_text-Follows (a ∷ s) [] [] = refl
order_text-Follows (a ∷ s) [] (c ∷ u) = tt
order_text-Follows (a ∷ s) (b ∷ t) [] = last_after-Follows _
order_text-Follows (a ∷ s) (b ∷ t) (c ∷ u) =
    then_by-Follows (order_ℕ a b) (order_ℕ b c) (order_ℕ a c) _ _ _ (order_ℕ-Follows a b c)
      (order_text-Follows s t u)

-- A number that is not negative as an int64.
abbrev pub IsPlain : ℕ → Type 0
IsPlain n = n < 2 ^ 63

order_difference_plain : (a b : ℕ) → IsPlain a → IsPlain b → order_difference a b ≡ order_ℕ a b
order_difference_plain a b h g = go ((a + 2 ^ 64 - b) % 2 ^ 64) (elim (dec_lt a b) [
  | yes lt ↦ inl (lt, omega (arith, h, g, lt))
  | no ge ↦ inr (omega (arith, ge), omega (arith, h, g, ge))
])
  where
    go :
        (d : ℕ)
        → ((a < b) × (d ≡ a + 2 ^ 64 - b)) ⊎ ((b ≤ a) × (d ≡ a - b))
        → (if d == 0 then same else if ltb d (2 ^ 63) then after else before) ≡ order_ℕ a b
    go d (inl (lt, e)) = ground arith
    go d (inr (le, e)) = ground arith

order_difference-Follows :
    (a b c : ℕ)
    → IsPlain a
    → IsPlain b
    → IsPlain c
    → Follows (order_difference a b) (order_difference b c) (order_difference a c)
order_difference-Follows a b c h g f =
    subst (λ x. Follows x (order_difference b c) (order_difference a c))
      (sym (order_difference_plain a b h g))
      (subst (λ y. Follows (order_ℕ a b) y (order_difference a c))
        (sym (order_difference_plain b c g f))
        (subst (Follows (order_ℕ a b) (order_ℕ b c)) (sym (order_difference_plain a c h f))
          (order_ℕ-Follows a b c)))

order_parts-Follows :
    (s t u : List ℕ)
    → All IsPlain s
    → All IsPlain t
    → All IsPlain u
    → Follows (order_parts s t) (order_parts t u) (order_parts s u)
unfolding order_parts
order_parts-Follows [] [] [] hs ht hu = refl
order_parts-Follows [] [] (c ∷ u) hs ht hu = refl
order_parts-Follows [] (b ∷ t) [] hs (hb, ht) hu =
    then_by-Follows (order_difference 0 b) (order_difference b 0) same _ _ _
      (order_difference-Follows 0 b 0 (omega arith) hb (omega arith))
      (order_parts-Follows [] t [] tt ht tt)
order_parts-Follows [] (b ∷ t) (c ∷ u) hs (hb, ht) (hc, hu) =
    then_by-Follows (order_difference 0 b) (order_difference b c) (order_difference 0 c) _ _ _
      (order_difference-Follows 0 b c (omega arith) hb hc) (order_parts-Follows [] t u tt ht hu)
order_parts-Follows (a ∷ s) [] [] (ha, hs) ht hu =
    then_by-Follows (order_difference a 0) same (order_difference a 0) _ _ _
      (order_difference-Follows a 0 0 ha (omega arith) (omega arith))
      (order_parts-Follows s [] [] hs tt tt)
order_parts-Follows (a ∷ s) [] (c ∷ u) (ha, hs) ht (hc, hu) =
    then_by-Follows (order_difference a 0) (order_difference 0 c) (order_difference a c) _ _ _
      (order_difference-Follows a 0 c ha (omega arith) hc) (order_parts-Follows s [] u hs tt hu)
order_parts-Follows (a ∷ s) (b ∷ t) [] (ha, hs) (hb, ht) hu =
    then_by-Follows (order_difference a b) (order_difference b 0) (order_difference a 0) _ _ _
      (order_difference-Follows a b 0 ha hb (omega arith)) (order_parts-Follows s t [] hs ht tt)
order_parts-Follows (a ∷ s) (b ∷ t) (c ∷ u) (ha, hs) (hb, ht) (hc, hu) =
    then_by-Follows (order_difference a b) (order_difference b c) (order_difference a c) _ _ _
      (order_difference-Follows a b c ha hb hc) (order_parts-Follows s t u hs ht hu)

order_read-Follows :
    (a b c : Option ℤ) (s t u : Text)
    → Follows (order_read a b s t) (order_read b c t u) (order_read a c s u)
order_read-Follows (some a) (some b) (some c) s t u = order_ℤ-Follows a b c
order_read-Follows (some a) (some b) none s t u = last_before-Follows (order_ℤ a b)
order_read-Follows (some a) none (some c) s t u = tt
order_read-Follows (some a) none none s t u = first_before-Follows _
order_read-Follows none (some b) (some c) s t u = first_after-Follows (order_ℤ b c)
order_read-Follows none (some b) none s t u = tt
order_read-Follows none none (some c) s t u = last_after-Follows _
order_read-Follows none none none s t u = order_text-Follows s t u

order_identifiers-Follows :
    (s t u : List Text)
    → Follows (order_identifiers s t) (order_identifiers t u) (order_identifiers s u)
unfolding order_identifiers
order_identifiers-Follows [] [] u = refl
order_identifiers-Follows [] (b ∷ t) [] = tt
order_identifiers-Follows [] (b ∷ t) (c ∷ u) = first_before-Follows _
order_identifiers-Follows (a ∷ s) [] [] = refl
order_identifiers-Follows (a ∷ s) [] (c ∷ u) = tt
order_identifiers-Follows (a ∷ s) (b ∷ t) [] = last_after-Follows _
order_identifiers-Follows (a ∷ s) (b ∷ t) (c ∷ u) =
    then_by-Follows (order_read (atoi a) (atoi b) a b) (order_read (atoi b) (atoi c) b c)
      (order_read (atoi a) (atoi c) a c) _ _ _ (order_read-Follows (atoi a) (atoi b) (atoi c) a b c)
      (order_identifiers-Follows s t u)

order_labels-Follows :
    (s t u : Option Text) → Follows (order_labels s t) (order_labels t u) (order_labels s u)
order_labels-Follows none none u = refl
order_labels-Follows none (some t) none = tt
order_labels-Follows none (some t) (some u) = first_after-Follows (order_labels (some t) (some u))
order_labels-Follows (some s) none none = refl
order_labels-Follows (some s) none (some u) = tt
order_labels-Follows (some s) (some t) none = last_before-Follows (order_labels (some s) (some t))
order_labels-Follows (some s) (some t) (some u) =
    order_identifiers-Follows (prerelease_identifiers s) (prerelease_identifiers t)
      (prerelease_identifiers u)

-- A version whose numbers did not overflow into the sign.
abbrev pub IsPlainVersion : Text → Type 0
IsPlainVersion version = All IsPlain (version_parts version)

-- The order of three versions: equal ones are interchangeable, and "before" and "after" are
-- transitive.
pub compare_version-Follows :
    (a b c : Text)
    → IsPlainVersion a
    → IsPlainVersion b
    → IsPlainVersion c
    → Follows (compare_version a b) (compare_version b c) (compare_version a c)
unfolding compare_version
compare_version-Follows a b c h g f =
    then_by-Follows (order_parts (version_parts a) (version_parts b))
      (order_parts (version_parts b) (version_parts c))
      (order_parts (version_parts a) (version_parts c)) _ _ _
      (order_parts-Follows (version_parts a) (version_parts b) (version_parts c) h g f)
      (order_labels-Follows (label_of (without_v a)) (label_of (without_v b))
        (label_of (without_v c)))

order_ℕ-same : (a : ℕ) → order_ℕ a a ≡ same
order_ℕ-same a = ground arith

order_ℤ-same : (a : ℤ) → order_ℤ a a ≡ same
order_ℤ-same a = ground arith

then_by-same : (x y : Order) → x ≡ same → y ≡ same → x then_by y ≡ same
then_by-same x y p q = rw p q

order_text-same : (s : Text) → order_text s s ≡ same
unfolding order_text
order_text-same [] = refl
order_text-same (a ∷ s) = then_by-same _ _ (order_ℕ-same a) (order_text-same s)

order_difference-same : (a : ℕ) → IsPlain a → order_difference a a ≡ same
order_difference-same a h = order_difference_plain a a h h ∙ order_ℕ-same a

order_parts-same : (s : List ℕ) → All IsPlain s → order_parts s s ≡ same
unfolding order_parts
order_parts-same [] h = refl
order_parts-same (a ∷ s) (h, hs) =
    then_by-same _ _ (order_difference-same a h) (order_parts-same s hs)

order_read-same : (a : Option ℤ) (s : Text) → order_read a a s s ≡ same
order_read-same (some a) s = order_ℤ-same a
order_read-same none s = order_text-same s

order_identifiers-same : (s : List Text) → order_identifiers s s ≡ same
unfolding order_identifiers
order_identifiers-same [] = refl
order_identifiers-same (a ∷ s) =
    then_by-same _ _ (order_read-same (atoi a) a) (order_identifiers-same s)

order_labels-same : (s : Option Text) → order_labels s s ≡ same
order_labels-same none = refl
order_labels-same (some s) = order_identifiers-same (prerelease_identifiers s)

pub compare_version-same : (a : Text) → IsPlainVersion a → compare_version a a ≡ same
unfolding compare_version
compare_version-same a h =
    then_by-same _ _ (order_parts-same (version_parts a) h)
      (order_labels-same (label_of (without_v a)))
