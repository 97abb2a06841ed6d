-- ===== src/Subscription/StaticTexts/Readable.antt =====
-- Which texts of static talkgroups `int` takes, as
-- src/adn_server/application/subscription/in_band_signalling_ops.py reads them.
use adn_dmr_peer_server.Prelude.{
  ℕ, ◌≡◌, refl, ap, sym, ◌∙◌, Bool, true, false, not, ◌&&◌, ◌||◌, Option, none, some, is_some, List,
  [], ◌∷◌, any, if◌then◌else◌, ◌==◌, nat_eq, inl, inr, Bool-cases, Option-cases, arith,
}
use adn_dmr_peer_server.Subscription.{Text, int_text, is_digits}
use adn_dmr_peer_server.Subscription.StaticTexts.{
  split_commas, before_first, is_space, is_blank, is_digit, strip_start, strip_end, digits_of,
  signed_number, int_item, int_items, with_item, number_of, static_tgs, Signed,
}

before_first-any :
    (p : ℕ → Bool) (c : ℕ) (items : List Text)
    → any (λ item. any p item) (before_first c items) ≡ (p c || any (λ item. any p item) items)
before_first-any p c [] = ground arith
before_first-any p c (item ∷ items) = ground arith

split_commas-any :
    (p : ℕ → Bool) (t : Text)
    → any (λ item. any p item) (split_commas t) ≡ any (λ c. p c && not (c == 44)) t
unfolding split_commas
split_commas-any p [] = refl
split_commas-any p (c ∷ t) =
    ground (arith, split_commas-any p t, before_first-any p c (split_commas t))

-- No character that stands in a number, around it or between two.
abbrev pub is_foreign : ℕ → Bool
is_foreign c =
    not (is_digit c) && (not (is_space c) && (not (c == 43) && (not (c == 45) && not (c == 95))))

blank-foreign : (t : Text) → is_blank t ≡ true → any is_foreign t ≡ false
blank-foreign [] h = refl
blank-foreign (c ∷ t) h = ground (arith, h, blank-foreign t)

strip_start-foreign : (t : Text) → any is_foreign (strip_start t) ≡ any is_foreign t
unfolding strip_start
strip_start-foreign [] = refl
strip_start-foreign (c ∷ t) = ground (arith, strip_start-foreign t)

strip_end-foreign : (t : Text) → any is_foreign (strip_end t) ≡ any is_foreign t
unfolding strip_end
strip_end-foreign [] = refl
strip_end-foreign (c ∷ t) = elim (Bool-cases (is_blank (c ∷ t))) [
  | inl blank ↦ rw blank (sym (blank-foreign (c ∷ t) blank))
  | inr other ↦ rw other (ap (λ b. is_foreign c || b) (strip_end-foreign t))
]

digits_of-foreign :
    (after_digit : Bool) (t : Text) → any is_foreign t ≡ true → digits_of after_digit t ≡ none
unfolding digits_of
digits_of-foreign after_digit [] h = cc h
digits_of-foreign after_digit (c ∷ t) h =
    ground (arith, h, digits_of-foreign true t, digits_of-foreign false t)

signed_number-foreign : (t : Text) → any is_foreign t ≡ true → signed_number t ≡ none
signed_number-foreign [] h = refl
signed_number-foreign (c ∷ t) h =
    ground (arith, h, digits_of-foreign false t, digits_of-foreign false (c ∷ t))

int_item-foreign : (t : Text) → any is_foreign t ≡ true → int_item t ≡ none
unfolding int_item
int_item-foreign t h =
    signed_number-foreign (strip_end (strip_start t))
      (strip_end-foreign (strip_start t) ∙ strip_start-foreign t ∙ h)

foreign_not_blank : (t : Text) → any is_foreign t ≡ true → is_blank t ≡ false
foreign_not_blank t h = ground (arith, h, blank-foreign t)

none_later : (b : Bool) (o : Option Signed) → (if b then none else with_item o none) ≡ none
none_later b none = ground arith
none_later b (some n) = ground arith

int_items-foreign :
    (items : List Text) → any (λ item. any is_foreign item) items ≡ true → int_items items ≡ none
unfolding int_items
int_items-foreign [] h = cc h
int_items-foreign (item ∷ items) h = elim (Bool-cases (any is_foreign item)) [
  | inl here ↦ rw (foreign_not_blank item here, int_item-foreign item here)
  | inr elsewhere ↦
      rw (int_items-foreign items (rw elsewhere at h)) (none_later (is_blank item) (int_item item))
]

-- An item of digits alone is read as it stands.
strip_start-digits : (t : Text) → any (λ c. not (is_digit c)) t ≡ false → strip_start t ≡ t
unfolding strip_start
strip_start-digits [] h = refl
strip_start-digits (c ∷ t) h = ground (arith, h)

strip_end-digits : (t : Text) → any (λ c. not (is_digit c)) t ≡ false → strip_end t ≡ t
unfolding strip_end
strip_end-digits [] h = refl
strip_end-digits (c ∷ t) h = ground (arith, h, strip_end-digits t)

digits_of-digits : (t : Text) → any (λ c. not (is_digit c)) t ≡ false → digits_of true t ≡ some t
unfolding digits_of
digits_of-digits [] h = refl
digits_of-digits (c ∷ t) h = ground (arith, h, digits_of-digits t)

is_digits-digits : (t : Text) → any (λ c. not (is_digit c)) t ≡ false → is_digits t ≡ true
is_digits-digits [] h = refl
is_digits-digits (c ∷ t) h = ground (arith, h, is_digits-digits t)

int_text-digits :
    (c : ℕ) (t : Text)
    → any (λ c. not (is_digit c)) (c ∷ t) ≡ false
    → is_some (int_text (c ∷ t)) ≡ true
unfolding int_text
int_text-digits c t h = rw (is_digits-digits (c ∷ t) h)

number_of-digits :
    (c : ℕ) (t : Text)
    → any (λ c. not (is_digit c)) (c ∷ t) ≡ false
    → is_some (number_of false (some (c ∷ t))) ≡ true
number_of-digits c t h = elim (Option-cases (int_text (c ∷ t))) [
  | inl e ↦ cc (sym (ap is_some e) ∙ int_text-digits c t h)
  | inr (n, e) ↦ rw e
]

int_item-digits :
    (c : ℕ) (t : Text)
    → any (λ c. not (is_digit c)) (c ∷ t) ≡ false
    → is_some (int_item (c ∷ t)) ≡ true
unfolding int_item
int_item-digits c t h =
    rw (strip_start-digits (c ∷ t) h, strip_end-digits (c ∷ t) h)
      (rw (digits_of-digits t (ground (arith, h))) (ground (arith, h, number_of-digits c t h)))

both_some :
    (o : Option Signed) (p : Option (List Signed))
    → is_some o ≡ true
    → is_some p ≡ true
    → is_some (with_item o p) ≡ true
both_some none p h k = cc h
both_some (some n) none h k = cc k
both_some (some n) (some ns) h k = refl

digits_not_blank :
    (c : ℕ) (t : Text) → any (λ c. not (is_digit c)) (c ∷ t) ≡ false → is_blank (c ∷ t) ≡ false
digits_not_blank c t h = ground (arith, h)

int_items-digits :
    (items : List Text)
    → any (λ item. any (λ c. not (is_digit c)) item) items ≡ false
    → is_some (int_items items) ≡ true
unfolding int_items
int_items-digits [] h = refl
int_items-digits ([] ∷ items) h = int_items-digits items h
int_items-digits ((c ∷ t) ∷ items) h =
    let own : any (λ c. not (is_digit c)) (c ∷ t) ≡ false = ground (arith, h) in
    rw (digits_not_blank c t own) (
      both_some (int_item (c ∷ t)) (int_items items) (int_item-digits c t own)
        (int_items-digits items (ground (arith, h))))

-- A text with a character that is no digit, no space, no sign, no underscore and no comma is refused.
pub static_tgs-foreign :
    (t : Text) → any (λ c. is_foreign c && not (c == 44)) t ≡ true → is_some (static_tgs t) ≡ false
unfolding static_tgs
static_tgs-foreign t h =
    ap is_some (int_items-foreign (split_commas t) (split_commas-any is_foreign t ∙ h))

-- A text of digits and commas alone is read.
pub static_tgs-digits :
    (t : Text)
    → any (λ c. not (is_digit c) && not (c == 44)) t ≡ false
    → is_some (static_tgs t) ≡ true
unfolding static_tgs
static_tgs-digits t h =
    int_items-digits (split_commas t) (split_commas-any (λ c. not (is_digit c)) t ∙ h)
