-- ===== src/Subscription/StaticTexts.antt =====
-- The texts of TS1_STATIC and TS2_STATIC, as
-- src/adn_server/application/subscription/in_band_signalling_ops.py reads them: talkgroups between
-- commas, blank items left out, the others read by `int`. Digits and spaces are those of ASCII.
pub mod Readable
use adn_dmr_peer_server.Prelude.{
  ℕ, Bool, true, false, not, ◌&&◌, ◌||◌, Option, none, some, List, [], ◌∷◌, leb, any, if◌then◌else◌,
  ◌==◌, nat_eq,
}
use adn_dmr_peer_server.Subscription.{Text, int_text}

abbrev comma : ℕ
comma = 44

abbrev pub before_first : ℕ → List Text → List Text
before_first c [] = (c ∷ []) ∷ []
before_first c (item ∷ items) = (c ∷ item) ∷ items

-- `text.split(",")`
unfoldable pub split_commas : Text → List Text
split_commas [] = [] ∷ []
split_commas (c ∷ t) =
    let items = split_commas t in if c == comma then [] ∷ items else before_first c items

abbrev pub is_space : ℕ → Bool
is_space c = c == 32 || (leb 9 c && leb c 13 || leb 28 c && leb c 31)

abbrev pub is_blank : Text → Bool
is_blank t = not (any (λ c. not (is_space c)) t)

-- `text.strip()`: spaces are dropped before the first and after the last other character.
unfoldable pub strip_end : Text → Text
strip_end [] = []
strip_end (c ∷ t) = let rest = strip_end t in if is_blank (c ∷ t) then [] else c ∷ rest

unfoldable pub strip_start : Text → Text
strip_start [] = []
strip_start (c ∷ t) = let rest = strip_start t in if is_space c then rest else c ∷ t

abbrev pub is_digit : ℕ → Bool
is_digit c = leb 48 c && leb c 57

abbrev with_digit : ℕ → Option Text → Option Text
with_digit c none = none
with_digit c (some ds) = some (c ∷ ds)

-- The digits of a number, where an underscore may stand between two of them; the flag tells that the
-- character before is a digit.
unfoldable pub digits_of : Bool → Text → Option Text
digits_of after_digit [] = if after_digit then some [] else none
digits_of after_digit (c ∷ t) =
    let digits = digits_of true t in
    let after_underscore = digits_of false t in
    if is_digit c
    then with_digit c digits
    else if c == 95 && after_digit
    then after_underscore
    else none

-- A number and whether a minus stands before it.
abbrev pub Signed : Type 0
Signed = Bool × ℕ

abbrev with_sign : Bool → Option ℕ → Option Signed
with_sign negative none = none
with_sign negative (some n) = some (negative, n)

abbrev pub number_of : Bool → Option Text → Option Signed
number_of negative none = none
number_of negative (some ds) = with_sign negative (int_text ds)

abbrev pub signed_number : Text → Option Signed
signed_number [] = none
signed_number (c ∷ t) =
    if c == 45
    then number_of true (digits_of false t)
    else if c == 43
    then number_of false (digits_of false t)
    else number_of false (digits_of false (c ∷ t))

-- `int(tg)`, none where it raises a `ValueError`
unfoldable pub int_item : Text → Option Signed
unfolding int_text digits_of strip_start strip_end
int_item t = signed_number (strip_end (strip_start t))

abbrev pub with_item : Option Signed → Option (List Signed) → Option (List Signed)
with_item none items = none
with_item (some n) none = none
with_item (some n) (some ns) = some (n ∷ ns)

unfoldable pub int_items : List Text → Option (List Signed)
unfolding int_item
int_items [] = some []
int_items (item ∷ items) =
    let rest = int_items items in if is_blank item then rest else with_item (int_item item) rest

-- `[int(tg) for tg in text.split(",") if tg.strip()]`
unfoldable pub static_tgs : Text → Option (List Signed)
unfolding split_commas int_items
static_tgs text = int_items (split_commas text)

abbrev pub is_signed : ℕ → Signed → Bool
is_signed dst (negative, n) = n == dst && (not negative || n == 0)
