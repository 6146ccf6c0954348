-- ===== src/Telemetry/Workflow/RequiredSet.antt =====
-- The set that `RequiredChecks` of src/telemetry/workflow.rs holds.
use github_webhook_exporter.Prelude.{
  ◌⊎◌, inl, inr, false, Bool-cases, ltb, ltb→lt, sym, ◌∙◌, suc, sym, all-append, ◌≤◌, ◌<◌, ◌≡◌,
  refl, ap, ◌||◌, Bool, true, false, List, [], ◌∷◌, ◌++◌, arith, any, all, length, length-append,
  Text, text_eq, text_lt, text_eq_iff,
}
use github_webhook_exporter.Telemetry.Workflow.Names.{DisplayName}
use github_webhook_exporter.Telemetry.Workflow.Required.{
  RequiredChecks, insert_name, retain_names, new_checks, contains,
}

-- The order of texts.

pub text_lt_trans : (a b c : Text) → text_lt a b ≡ true → text_lt b c ≡ true → text_lt a c ≡ true
unfolding text_lt
text_lt_trans a [] c h k = cc
text_lt_trans a (y ∷ b) [] h k = cc
text_lt_trans [] (y ∷ b) (z ∷ c) h k = refl
text_lt_trans (x ∷ a) (y ∷ b) (z ∷ c) h k = ground (arith, text_lt_trans a b c)

pub text_lt_asym : (a b : Text) → text_lt a b ≡ true → text_lt b a ≡ false
unfolding text_lt
text_lt_asym a [] h = cc
text_lt_asym [] (y ∷ b) h = refl
text_lt_asym (x ∷ a) (y ∷ b) h = ground (arith, text_lt_asym a b)

text_lt_total : (a b : Text) → text_eq a b ≡ false → text_lt a b ≡ false → text_lt b a ≡ true
unfolding text_lt text_eq
text_lt_total [] [] h k = cc
text_lt_total [] (y ∷ b) h k = cc
text_lt_total (x ∷ a) [] h k = refl
text_lt_total (x ∷ a) (y ∷ b) h k = ground (arith, text_lt_total a b)

text_lt-neq : (a b : Text) → text_lt a b ≡ true → text_eq b a ≡ false
unfolding text_lt text_eq
text_lt-neq a [] h = cc
text_lt-neq [] (y ∷ b) h = refl
text_lt-neq (x ∷ a) (y ∷ b) h = ground (arith, text_lt-neq a b)

abbrev above : Text → DisplayName → Bool
above name other = text_lt name other.text

-- Each name is before the later ones.
abbrev pub Ascending : List DisplayName → Type 0
Ascending [] = Unit {0}
Ascending (name ∷ names) = (all (above name.text) names ≡ true) × Ascending names

all-insert :
    (p : DisplayName → Bool) (n : DisplayName) (ns : List DisplayName)
    → p n ≡ true
    → all p ns ≡ true
    → all p (insert_name n ns) ≡ true
unfolding insert_name
all-insert p n [] h k = ground arith
all-insert p n (m ∷ ms) h k = ground (arith, all-insert p n ms)

all-above_trans :
    (a b : Text) (ns : List DisplayName)
    → text_lt a b ≡ true
    → all (above b) ns ≡ true
    → all (above a) ns ≡ true
all-above_trans a b [] h k = refl
all-above_trans a b (n ∷ ns) h k = ground (arith, text_lt_trans a b n.text, all-above_trans a b ns)

insert-Ascending :
    (n : DisplayName) (ns : List DisplayName) → Ascending ns → Ascending (insert_name n ns)
unfolding insert_name
insert-Ascending n [] h = (refl, tt)
insert-Ascending n (m ∷ ms) h = ground (
  arith,
  all-insert (above m.text) n ms,
  all-above_trans n.text m.text ms,
  text_lt_total n.text m.text,
  insert-Ascending n ms,
)

length-insert :
    (n : DisplayName) (ns : List DisplayName)
    → (length ns ≤ length (insert_name n ns)) × (length (insert_name n ns) ≤ suc (length ns))
unfolding insert_name
length-insert n [] = omega arith
length-insert n (m ∷ ms) = ground (arith, length-insert n ms)

abbrev named : Text → DisplayName → Bool
named k n = text_eq k n.text

any-insert :
    (k : Text) (n : DisplayName) (ns : List DisplayName)
    → any (named k) (insert_name n ns) ≡ (text_eq k n.text || any (named k) ns)
unfolding insert_name
any-insert k n [] = refl
any-insert k n (m ∷ ms) = ground (arith, any-insert k n ms, text_eq_iff n.text m.text)

-- The loop.

retain-valid :
    (ret ns : List DisplayName)
    → Ascending ret
    → length ret ≤ 100
    → Ascending (retain_names ret ns) × (length (retain_names ret ns) ≤ 100)
unfolding retain_names
retain-valid ret [] h l = (h, l)
retain-valid ret (n ∷ ns) h l =
    ground
      (arith, insert-Ascending n ret h, length-insert n ret, retain-valid (insert_name n ret) ns)

length-retain-le : (ret ns : List DisplayName) → length ret ≤ length (retain_names ret ns)
unfolding retain_names
length-retain-le ret [] = omega arith
length-retain-le ret (n ∷ ns) =
    ground (arith, length-insert n ret, length-retain-le (insert_name n ret) ns)

retain-any :
    (k : Text) (ret ns : List DisplayName)
    → length (retain_names ret ns) < 100
    → any (named k) (retain_names ret ns) ≡ (any (named k) ret || any (named k) ns)
unfolding retain_names
retain-any k ret [] h = ground arith
retain-any k ret (n ∷ ns) h =
    ground (arith, any-insert k n ret, retain-any k (insert_name n ret) ns)

retain-given :
    (k : Text) (ret ns : List DisplayName)
    → any (named k) (retain_names ret ns) ≡ true
    → (any (named k) ret || any (named k) ns) ≡ true
unfolding retain_names
retain-given k ret [] h = ground arith
retain-given k ret (n ∷ ns) h =
    ground (arith, any-insert k n ret, retain-given k (insert_name n ret) ns)

-- The set holds at most 100 names, in ascending order without repetition. A name is in it exactly
-- when it was given, however often other names were repeated, unless the set is full: then
-- a name that was given may be left out.
pub new_checks_lem :
    (names : List DisplayName) (k : Text)
    → Ascending (new_checks names).names
      × (length (new_checks names).names ≤ 100)
      × ((contains (new_checks names) k ≡ any (λ n. text_eq k n.text) names)
          ⊎ ((length (new_checks names).names ≡ 100) × (contains (new_checks names) k ≡ false)))
unfolding new_checks contains
new_checks_lem names k =
    let (ascending, bounded) = retain-valid [] names tt (omega arith) in
    (
      ascending,
      bounded,
      elim (Bool-cases (ltb (length (retain_names [] names)) 100)) [
        | inl few ↦ inl (retain-any k [] names (ltb→lt _ 100 few))
        | inr full ↦ elim (Bool-cases (any (named k) (retain_names [] names))) [
          | inl found ↦ inl (found ∙ sym (retain-given k [] names found))
          | inr missed ↦ inr (ground (arith, full, bounded), missed)
        ]
      ],
    )

-- A list in ascending order is a set as it stands.

all_last :
    (a : Text) (ns : List DisplayName) (n : DisplayName)
    → all (above a) (ns ++ n ∷ []) ≡ true
    → text_lt a n.text ≡ true
all_last a [] n h = ground arith
all_last a (m ∷ ms) n h = ground (arith, all_last a ms n)

Ascending-front : (ns ms : List DisplayName) → Ascending (ns ++ ms) → Ascending ns
Ascending-front [] ms h = tt
Ascending-front (n ∷ ns) ms h =
    ground (arith, all-append (above n.text) ns ms, Ascending-front ns ms)

append_one : (ns ms : List DisplayName) (n : DisplayName) → (ns ++ n ∷ []) ++ ms ≡ ns ++ n ∷ ms
append_one [] ms n = refl
append_one (m ∷ ns) ms n = ap (◌∷◌ m) (append_one ns ms n)

insert_last :
    (n : DisplayName) (ns : List DisplayName)
    → Ascending (ns ++ n ∷ [])
    → insert_name n ns ≡ ns ++ n ∷ []
unfolding insert_name
insert_last n [] h = refl
insert_last n (m ∷ ms) h = ground (
  arith,
  all_last m.text ms n h.0,
  text_lt-neq m.text n.text,
  text_lt_asym m.text n.text,
  insert_last n ms h.1,
)

append_nil : (ns : List DisplayName) → ns ++ [] ≡ ns
append_nil [] = refl
append_nil (n ∷ ns) = ap (◌∷◌ n) (append_nil ns)

retain-Ascending :
    (ret ns : List DisplayName)
    → Ascending (ret ++ ns)
    → length (ret ++ ns) ≤ 100
    → retain_names ret ns ≡ ret ++ ns
unfolding retain_names
retain-Ascending ret [] h l = sym (append_nil ret)
retain-Ascending ret (n ∷ ns) h l =
    let shape = append_one ret ns n in
    let inserted = insert_last n ret (Ascending-front (ret ++ n ∷ []) ns (rw shape h)) in
    let rest = retain-Ascending (ret ++ n ∷ []) ns (rw shape h) (rw shape l) in
    ground (arith, inserted, rest, shape, length-append ret (n ∷ ns))

pub new_checks_fixed :
    (c : RequiredChecks) → Ascending c.names → length c.names ≤ 100 → new_checks c.names ≡ c
unfolding new_checks
new_checks_fixed c h l = ap (λ ns. record { names = ns }) (retain-Ascending [] c.names h l)
