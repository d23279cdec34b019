-- ===== src/Config/Load/Aliases.antt =====
-- What `mergeAliases` makes of the aliases of the configuration.
use ollame.Prelude.{
  ◌≡◌, refl, sym, ap, ◌∙◌, inl, inr, arith, Bool, false, List, [], ◌∷◌, none, some, Option, Bytes,
  codes, bytes_eq, bytes_eq_iff, contains, cut, ok, err, Bool-cases, Option-cases, Result-cases,
  if◌then◌else◌, bind_ok, ok_injective,
}
use ollame.Prelude.Utf8.{has_space}
use ollame.Config.Types.{Alias}
use ollame.Config.Names.{normalize_alias}
use ollame.Config.Names.Shape.{normalize_alias-idempotent}
use ollame.Config.Load.{normalized, set_target, merge_aliases_from, merge_aliases}

-- The name, as it is normalized, is `n`.
abbrev pub is_named : Bytes → Bytes → Bytes → Bool
is_named tag n name = elim (normalize_alias name tag) [ err _ ↦ false | ok m ↦ bytes_eq m n ]

-- The target of the first alias of that name.
abbrev pub target_of : Bytes → Bytes → List Alias → Option Bytes
target_of tag n [] = none
target_of tag n (a ∷ aliases) =
    if is_named tag n a.name then some a.target else target_of tag n aliases

-- The target that an entry gives to that name, or the one known before.
abbrev pub after_entry : Bytes → Bytes → Bytes → Option Bytes → Option Bytes
after_entry tag n entry prior = elim (cut (codes "=") entry) [
  | none ↦ prior
  | some (name, target) ↦ if is_named tag n name then some target else prior
]

-- The target of the last entry of that name, or the one known before.
abbrev pub entry_target : Bytes → Bytes → List Bytes → Option Bytes → Option Bytes
entry_target tag n [] prior = prior
entry_target tag n (entry ∷ entries) prior =
    entry_target tag n entries (after_entry tag n entry prior)

-- The first aliases are the old ones in their order, changed at most in their targets.
abbrev pub Keeps : List Alias → List Alias → Type 0
Keeps [] now = Unit {0}
Keeps (a ∷ old) [] = ⊥
Keeps (a ∷ old) (b ∷ now) = (b ≡ record a { target = b.target }) × Keeps old now

Keeps-refl : (old : List Alias) → Keeps old old
Keeps-refl [] = tt
Keeps-refl (a ∷ old) = (refl, Keeps-refl old)

Keeps-trans : (a b c : List Alias) → Keeps a b → Keeps b c → Keeps a c
Keeps-trans [] b c h k = tt
Keeps-trans (x ∷ a) [] c h k = elim h [ ]
Keeps-trans (x ∷ a) (y ∷ b) [] h k = elim k [ ]
Keeps-trans (x ∷ a) (y ∷ b) (z ∷ c) h k =
    (k.0 ∙ ap (λ (w : Alias). record w { target = z.target }) h.0, Keeps-trans a b c h.1 k.1)

set_target-Keeps :
    (tag n target : Bytes) (old now : List Alias)
    → set_target tag n target old ≡ ok now
    → Keeps old now
unfolding set_target
set_target-Keeps tag n target [] now h = tt
set_target-Keeps tag n target (a ∷ old) now h =
    let (prior, e, h') = bind_ok (normalized a.name tag) _ h in
    elim (Bool-cases (bytes_eq prior n)) [
      | inl same ↦ rw (← ok_injective (rw same at h')) (refl, Keeps-refl old)
      | inr other ↦
          let (rest, r, h'') = bind_ok (set_target tag n target old) _ (rw other at h') in
          rw (← ok_injective h'') (refl, set_target-Keeps tag n target old rest r)
    ]

normalized-ok : (name tag m : Bytes) → normalized name tag ≡ ok m → normalize_alias name tag ≡ ok m
normalized-ok name tag m h = elim (Result-cases (normalize_alias name tag)) [
  | inl (k, e) ↦ ground arith
  | inr (k, e) ↦ absurd (ground arith)
]

is_named-ok :
    (tag n name m : Bytes) → normalize_alias name tag ≡ ok m → is_named tag n name ≡ bytes_eq m n
is_named-ok tag n name m h = rw (is_named, h)

set_target-target_of :
    (tag n target m : Bytes) (old now : List Alias)
    → normalize_alias n tag ≡ ok n
    → set_target tag n target old ≡ ok now
    → target_of tag m now ≡ (if bytes_eq n m then some target else target_of tag m old)
unfolding set_target
set_target-target_of tag n target m [] now fixed h =
    rw (← ok_injective h) (rw (is_named-ok tag m n n fixed))
set_target-target_of tag n target m (a ∷ old) now fixed h =
    let (prior, e, h') = bind_ok (normalized a.name tag) _ h in
    let named = is_named-ok tag m a.name prior (normalized-ok a.name tag prior e) in
    elim (Bool-cases (bytes_eq prior n)) [
      | inl same ↦ rw (← ok_injective (rw same at h')) (ground (arith, named, bytes_eq_iff prior n))
      | inr other ↦
          let (rest, r, h'') = bind_ok (set_target tag n target old) _ (rw other at h') in
          let ih = set_target-target_of tag n target m old rest fixed r in
          rw (← ok_injective h'') (
            ground (arith, named, ih, bytes_eq_iff prior n, bytes_eq_iff prior m, bytes_eq_iff n m))
    ]

-- One round of the loop that succeeded.
record Round (tag : Bytes) (seen : List Bytes) (entry : Bytes) (entries : List Bytes)
    (old now : List Alias) : Type 0 where
  name : Bytes
  target : Bytes
  n : Bytes
  mid : List Alias
  splits : cut (codes "=") entry ≡ some (name, target)
  normal : normalize_alias name tag ≡ ok n
  stored : set_target tag n target old ≡ ok mid
  remaining : merge_aliases_from tag (n ∷ seen) mid entries ≡ ok now

merge-Round :
    (tag : Bytes) (seen : List Bytes) (entry : Bytes) (entries : List Bytes) (old now : List Alias)
    → merge_aliases_from tag seen old (entry ∷ entries) ≡ ok now
    → Round tag seen entry entries old now
unfolding merge_aliases_from
merge-Round tag seen entry entries old now h = elim (Option-cases (cut (codes "=") entry)) [
  | inl e ↦ absurd (cc (rw (merge_aliases_from, e) at h))
  | inr ((name, target), e) ↦ elim (Bool-cases (bytes_eq target [])) [
    | inl bare ↦ absurd (cc (rw (merge_aliases_from, e, bare) at h))
    | inr given ↦
        let (n, norm, h') =
          bind_ok (normalized name tag) _ (rw (merge_aliases_from, e, given) at h) in
        elim (Bool-cases (contains seen n)) [
          | inl again ↦ absurd (cc (rw again at h'))
          | inr new ↦
              let (mid, s, rest) = bind_ok (set_target tag n target old) _ (rw new at h') in
              record {
                name = name;
                target = target;
                n = n;
                mid = mid;
                splits = e;
                normal = normalized-ok name tag n norm;
                stored = s;
                remaining = rest;
              }
        ]
  ]
]

after_entry_lem :
    (tag m entry name target n : Bytes) (prior : Option Bytes)
    → cut (codes "=") entry ≡ some (name, target)
    → normalize_alias name tag ≡ ok n
    → after_entry tag m entry prior ≡ (if bytes_eq n m then some target else prior)
after_entry_lem tag m entry name target n prior e norm =
    rw (after_entry, e) (rw (is_named-ok tag m name n norm))

record Merged (tag : Bytes) (entries : List Bytes) (old now : List Alias) : Type 0 where
  keeps : Keeps old now
  targets : (m : Bytes) → target_of tag m now ≡ entry_target tag m entries (target_of tag m old)

merge_aliases_from-Merged :
    (tag : Bytes) (seen entries : List Bytes) (old now : List Alias)
    → has_space tag ≡ false
    → merge_aliases_from tag seen old entries ≡ ok now
    → Merged tag entries old now
unfolding merge_aliases_from
merge_aliases_from-Merged tag seen [] old now clear h =
    rw (← ok_injective h) (record { keeps = Keeps-refl old; targets = λ m. refl })
merge_aliases_from-Merged tag seen (entry ∷ entries) old now clear h =
    go (merge-Round tag seen entry entries old now h)
      (λ n mid. merge_aliases_from-Merged tag (n ∷ seen) entries mid now clear)
  where
    go :
        (r : Round tag seen entry entries old now)
        → ((n : Bytes) (mid : List Alias)
            → merge_aliases_from tag (n ∷ seen) mid entries ≡ ok now
            → Merged tag entries mid now)
        → Merged tag (entry ∷ entries) old now
    go r ih =
        let k = ih r.n r.mid r.remaining in
        let fixed = normalize_alias-idempotent r.name tag tag r.n clear r.normal in
        record {
          keeps =
              Keeps-trans old r.mid now (set_target-Keeps tag r.n r.target old r.mid r.stored)
                k.keeps;
          targets = λ m.
              let now_mid = set_target-target_of tag r.n r.target m old r.mid fixed r.stored in
              let from_entry =
                after_entry_lem tag m entry r.name r.target r.n (target_of tag m old) r.splits
                  r.normal in
              k.targets m ∙ ap (entry_target tag m entries) (now_mid ∙ sym from_entry);
        }

-- Where `mergeAliases` succeeds, from a default tag with no space in it, each normalized name has the
-- target of the last entry of that name, and without such an entry the target that it had; the
-- aliases that were there keep their order and everything but their targets.
pub merge_aliases-targets :
    (tag : Bytes) (entries : List Bytes) (old now : List Alias) (m : Bytes)
    → has_space tag ≡ false
    → merge_aliases tag old entries ≡ ok now
    → (target_of tag m now ≡ entry_target tag m entries (target_of tag m old)) × Keeps old now
unfolding merge_aliases
merge_aliases-targets tag entries old now m clear h =
    let k = merge_aliases_from-Merged tag [] entries old now clear h in (k.targets m, k.keeps)
