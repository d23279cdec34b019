-- ===== src/Config/Names/Shape.antt =====
-- The names that `NormalizeAlias` returns: a base and a tag, and its fixed points.
use ollame.Prelude.{
  ℕ, ◌+◌, ◌≡◌, refl, ap, ap₂, ◌∙◌, ◌≤◌, append_assoc, inl, inr, arith, false, ◌||◌, [], ◌∷◌, ◌++◌,
  none, Bytes, codes, bytes_eq, count, cut, cut_byte, cut-splits, starts_with, lower, to_lower, ok,
  Bool-cases, Option-cases,
}
use ollame.Prelude.Utf8.{trim_space, has_space}
use ollame.Prelude.Utf8.Trim.{
  trim_space-no_space, has_space-colon, has_space-colon_back, has_space-to_lower,
}
use ollame.Config.Names.{
  contains_any, has_control, control_tail, colon, trim_byte, join_tag, with_base, split_name,
  bad_name, checked_name, normalize_alias,
}

abbrev name_chars : Bytes
name_chars = codes "?#\\"

abbrev tag_chars : Bytes
tag_chars = codes ":/ \\?#"

pub record IsBase (b : Bytes) : Type 0 where
  pub nonempty : bytes_eq b [] ≡ false
  pub not_slashes : bytes_eq (trim_byte b'/' b) [] ≡ false
  pub lowered : to_lower b ≡ b
  pub no_colon : count b':' b ≡ 0
  pub plain : contains_any name_chars b ≡ false
  pub no_space : has_space b ≡ false
  pub no_control : has_control b ≡ false

pub record IsTag (t : Bytes) : Type 0 where
  pub nonempty : bytes_eq t [] ≡ false
  pub lowered : to_lower t ≡ t
  pub plain : contains_any tag_chars t ≡ false
  pub no_space : has_space t ≡ false
  pub no_control : has_control t ≡ false

lower_idempotent : (s : Bytes) → to_lower (to_lower s) ≡ to_lower s
lower_idempotent [] = refl
lower_idempotent (c ∷ s) = ground (arith, lower_idempotent s)

to_lower-colon : (s t : Bytes) → to_lower (s ++ b':' ∷ t) ≡ to_lower s ++ b':' ∷ to_lower t
to_lower-colon [] t = refl
to_lower-colon (c ∷ s) t = ap (◌∷◌ (lower c)) (to_lower-colon s t)

lowered_parts :
    (s t : Bytes) → to_lower (s ++ b':' ∷ t) ≡ s ++ b':' ∷ t → (to_lower s ≡ s) × (to_lower t ≡ t)
lowered_parts [] t h = (refl, ground arith)
lowered_parts (c ∷ s) t h = ground (arith, lowered_parts s t)

count-append : (x : ℕ) (s t : Bytes) → count x (s ++ t) ≡ count x s + count x t
count-append x [] t = omega arith
count-append x (c ∷ s) t = ground (arith, count-append x s t)

contains_any-append :
    (chars s t : Bytes)
    → contains_any chars (s ++ t) ≡ (contains_any chars s || contains_any chars t)
contains_any-append chars [] t = refl
contains_any-append chars (c ∷ s) t = ground (arith, contains_any-append chars s t)

has_control-colon : (s t : Bytes) → has_control (s ++ b':' ∷ t) ≡ (has_control s || has_control t)
has_control-colon [] t = refl
has_control-colon (c ∷ []) t = ground arith
has_control-colon (c ∷ d ∷ s) t = ground (arith, has_control-colon (d ∷ s) t)

tail-lower : (s : Bytes) → control_tail (to_lower s) ≡ control_tail s
tail-lower [] = refl
tail-lower (c ∷ s) = ground arith

has_control-lower : (s : Bytes) → has_control s ≡ false → has_control (to_lower s) ≡ false
has_control-lower [] h = refl
has_control-lower (c ∷ s) h = ground (arith, has_control-lower s, tail-lower s)

tag_chars-lower :
    (s : Bytes) → contains_any tag_chars s ≡ false → contains_any tag_chars (to_lower s) ≡ false
tag_chars-lower [] h = refl
tag_chars-lower (c ∷ s) h = ground (arith, tag_chars-lower s)

-- What no tag has, a name does not have in it.
tag_chars-name :
    (s : Bytes)
    → contains_any tag_chars s ≡ false
    → (contains_any name_chars s ≡ false) × (count b':' s ≡ 0)
tag_chars-name [] h = (refl, refl)
tag_chars-name (c ∷ s) h = ground (arith, tag_chars-name s)

nonempty-lower : (s : Bytes) → bytes_eq s [] ≡ false → bytes_eq (to_lower s) [] ≡ false
unfolding bytes_eq
nonempty-lower [] h = h
nonempty-lower (c ∷ s) h = refl

-- A base and a tag, joined, pass the checks of a name.
good_name : (b t : Bytes) → IsBase b → IsTag t → bad_name (b ++ b':' ∷ t) ≡ false
unfolding bad_name bytes_eq
good_name [] t base tag = absurd (cc base.nonempty)
good_name (c ∷ b) t base tag = ground (
  arith,
  count-append b':' (c ∷ b) (b':' ∷ t),
  contains_any-append name_chars (c ∷ b) (b':' ∷ t),
  has_space-colon (c ∷ b) t base.no_space tag.no_space,
  has_control-colon (c ∷ b) t,
  tag_chars-name t tag.plain,
)

join_tag-IsTag : (b t : Bytes) → IsTag t → join_tag b t ≡ ok (b ++ b':' ∷ t)
unfolding join_tag
join_tag-IsTag b t tag = rw tag.lowered (ground (arith, append_assoc b colon t))

-- A base and a tag, joined, are their own normal form, whatever the default tag.
pub normalize_alias-fixed :
    (b t other : Bytes)
    → IsBase b
    → IsTag t
    → normalize_alias (b ++ b':' ∷ t) other ≡ ok (b ++ b':' ∷ t)
unfolding normalize_alias checked_name split_name with_base
normalize_alias-fixed b t other base tag =
    let m = b ++ b':' ∷ t in
    let trimmed = trim_space-no_space m (has_space-colon b t base.no_space tag.no_space) in
    let low : to_lower m ≡ m =
      to_lower-colon b t ∙ ap₂ (λ (x y : Bytes). x ++ b':' ∷ y) base.lowered tag.lowered in
    let good = good_name b t base tag in
    let found = cut_byte b':' b t base.no_colon in
    ground (arith, trimmed, low, good, found, join_tag-IsTag b t tag)

-- The parts of a name that passed the checks.
record Parts (b t : Bytes) : Type 0 where
  lowered : to_lower b ≡ b
  no_colon : count b':' b ≡ 0
  plain : contains_any name_chars b ≡ false
  no_space : has_space b ≡ false
  no_control : has_control b ≡ false
  tag_no_space : has_space t ≡ false

with_base-Parts :
    (b t m : Bytes)
    → Parts b t
    → with_base b t ≡ ok m
    → IsBase b × IsTag (to_lower t) × (m ≡ b ++ b':' ∷ to_lower t)
unfolding with_base join_tag
with_base-Parts b t m p h = elim (Bool-cases (bytes_eq b [] || bytes_eq (trim_byte b'/' b) [])) [
  | inl bad ↦ absurd (ground arith)
  | inr good ↦ elim (Bool-cases (bytes_eq t [] || contains_any tag_chars t || has_control t)) [
    | inl bad ↦ absurd (ground arith)
    | inr good' ↦ (
      record {
        nonempty = ground arith;
        not_slashes = ground arith;
        lowered = p.lowered;
        no_colon = p.no_colon;
        plain = p.plain;
        no_space = p.no_space;
        no_control = p.no_control;
      },
      record {
        nonempty = nonempty-lower t (ground arith);
        lowered = lower_idempotent t;
        plain = tag_chars-lower t (ground arith);
        no_space = has_space-to_lower t p.tag_no_space;
        no_control = has_control-lower t (ground arith);
      },
      ground (arith, append_assoc b colon (to_lower t)),
    )
  ]
]

cut-none-count : (c : ℕ) (s : Bytes) → cut (c ∷ []) s ≡ none → count c s ≡ 0
unfolding cut starts_with
cut-none-count c [] h = refl
cut-none-count c (d ∷ s) h = elim (Option-cases (cut (c ∷ []) s)) [
  | inl e ↦ ground (arith, cut-none-count c s e)
  | inr (found, e) ↦ ground arith
]

-- The facts on a name that the checks leave.
record Checked (name : Bytes) : Type 0 where
  one_colon : count b':' name ≤ 1
  plain : contains_any name_chars name ≡ false
  no_space : has_space name ≡ false
  no_control : has_control name ≡ false

bad_name-Checked : (name : Bytes) → bad_name name ≡ false → Checked name
unfolding bad_name
bad_name-Checked name h = record {
  one_colon = ground arith;
  plain = ground arith;
  no_space = ground arith;
  no_control = ground arith;
}

cut-Parts :
    (name b t : Bytes) → to_lower name ≡ name → Checked name → name ≡ b ++ b':' ∷ t → Parts b t
cut-Parts name b t low c e =
    let (hb, ht) = has_space-colon_back b t (rw (← e) c.no_space) in
    let (low_b, _) = lowered_parts b t (rw (← e) low) in
    record {
      lowered = low_b;
      no_colon = omega (arith, c.one_colon, ap (count b':') e, count-append b':' b (b':' ∷ t));
      plain =
          ground
            (arith, ap (contains_any name_chars) e, contains_any-append name_chars b (b':' ∷ t));
      no_space = hb;
      no_control = ground (arith, ap has_control e, has_control-colon b t);
      tag_no_space = ht;
    }

split_name-parts :
    (name tag m : Bytes)
    → to_lower name ≡ name
    → Checked name
    → has_space tag ≡ false
    → split_name name tag ≡ ok m
    → (b : Bytes) × (t : Bytes) × IsBase b × IsTag t × (m ≡ b ++ b':' ∷ t)
unfolding split_name
split_name-parts name tag m low c clear h = elim (Option-cases (cut colon name)) [
  | inl e ↦
      let parts : Parts name tag = record {
        lowered = low;
        no_colon = cut-none-count b':' name e;
        plain = c.plain;
        no_space = c.no_space;
        no_control = c.no_control;
        tag_no_space = clear;
      } in
      let (base, tagged, whole) = with_base-Parts name tag m parts (rw (split_name, e) at h) in
      (name, to_lower tag, base, tagged, whole)
  | inr ((b, t), e) ↦
      let parts = cut-Parts name b t low c (cut-splits colon name b t e) in
      let (base, tagged, whole) = with_base-Parts b t m parts (rw (split_name, e) at h) in
      (b, to_lower t, base, tagged, whole)
]

-- A name that `NormalizeAlias` returns, from a default tag with no space in it, is a base and a tag
-- with one colon between them: both are lower case and not empty, the base is not made of slashes,
-- and neither has a space, a control character or one of `?`, `#` and a backslash.
pub normalize_alias-parts :
    (name tag m : Bytes)
    → has_space tag ≡ false
    → normalize_alias name tag ≡ ok m
    → (b : Bytes) × (t : Bytes) × IsBase b × IsTag t × (m ≡ b ++ b':' ∷ t)
unfolding normalize_alias checked_name
normalize_alias-parts name tag m clear h =
    let low = to_lower (trim_space name) in
    elim (Bool-cases (bad_name low)) [
      | inl bad ↦ absurd (ground arith)
      | inr good ↦
          split_name-parts low tag m (lower_idempotent (trim_space name))
            (bad_name-Checked low good) clear (rw good at h)
    ]

-- `NormalizeAlias` is idempotent: a name that it returns, from a default tag with no space in it, is
-- its own normal form, whatever default tag is in force then.
pub normalize_alias-idempotent :
    (name tag other m : Bytes)
    → has_space tag ≡ false
    → normalize_alias name tag ≡ ok m
    → normalize_alias m other ≡ ok m
normalize_alias-idempotent name tag other m clear h =
    let (b, t, base, tagged, e) = normalize_alias-parts name tag m clear h in
    rw e (normalize_alias-fixed b t other base tagged)
