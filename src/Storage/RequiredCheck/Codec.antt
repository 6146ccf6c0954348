-- ===== src/Storage/RequiredCheck/Codec.antt =====
-- The encoding of a set of names in one column, in src/storage/required_check_store.rs.
use github_webhook_exporter.Prelude.{
  ℕ, zero, suc, Bool-cases, Option-cases, inl, inr, text_eq, text_lt, ◌+◌, ◌*◌, ◌≤◌, ◌≡◌, refl, ap,
  ◌∙◌, ◌==◌, true, not, List, [], ◌∷◌, ◌++◌, All, all, take, length, length-append, filter_map,
  Text, split, arith,
}
use github_webhook_exporter.Telemetry.Workflow.Names.{
  DisplayName, is_control, visible, sanitize_display_name,
}
use github_webhook_exporter.Telemetry.Workflow.Sanitized.{
  IsDisplayText, sanitize_fixed, sanitize-IsDisplayText, take-all,
}
use github_webhook_exporter.Telemetry.Workflow.Required.{
  RequiredChecks, new_checks, insert_name, retain_names,
}
use github_webhook_exporter.Telemetry.Workflow.RequiredSet.{
  Ascending, new_checks_lem, new_checks_fixed,
}
use github_webhook_exporter.Storage.RequiredCheck.{join, encode_check_names, into_checks}

abbrev pub texts : List DisplayName → List Text
texts [] = []
texts (n ∷ ns) = n.text ∷ texts ns

-- No separator stands in the text.
abbrev Unsplit : Text → Type 0
Unsplit s = all (λ c. not (c == 10)) s ≡ true

visible-Unsplit : (s : Text) → all visible s ≡ true → Unsplit s
unfolding is_control
visible-Unsplit [] h = refl
visible-Unsplit (c ∷ s) h = ground (arith, visible-Unsplit s)

split-Unsplit : (s : Text) → Unsplit s → split 10 s ≡ (s, [])
unfolding split
split-Unsplit [] h = refl
split-Unsplit (c ∷ s) h = ground (arith, split-Unsplit s)

split-joined :
    (s t : Text) → Unsplit s → split 10 (s ++ 10 ∷ t) ≡ (s, (split 10 t).0 ∷ (split 10 t).1)
unfolding split
split-joined [] t h = refl
split-joined (c ∷ s) t h = ground (arith, split-joined s t)

-- The names of a set, each of which a display name can hold.
abbrev pub AllNames : List DisplayName → Type 0
AllNames = All (λ (n : DisplayName). IsDisplayText n.text)

split-join :
    (n : DisplayName) (ns : List DisplayName)
    → AllNames (n ∷ ns)
    → split 10 (join 10 (n ∷ ns)) ≡ (n.text, texts ns)
unfolding join
split-join n [] h = split-Unsplit n.text (visible-Unsplit n.text h.0.printable)
split-join n (m ∷ ns) h =
    split-joined n.text (join 10 (m ∷ ns)) (visible-Unsplit n.text h.0.printable)
    ∙ ap (λ (p : Text × List Text). (n.text, p.0 ∷ p.1)) (split-join m ns h.1)

sanitized_again :
    (ns : List DisplayName) → AllNames ns → filter_map sanitize_display_name (texts ns) ≡ ns
sanitized_again [] h = refl
sanitized_again (n ∷ ns) h = rw (sanitize_fixed n h.0) (ap (◌∷◌ n) (sanitized_again ns h.1))

-- A set of required checks as `RequiredChecks::new` makes it, of sanitized names.
pub record IsCheckSet (checks : RequiredChecks) : Type 0 where
  pub ascending : Ascending checks.names
  pub few : length checks.names ≤ 100
  pub all_names : AllNames checks.names

abbrev decode_segments : List Text → RequiredChecks
decode_segments segments = new_checks (take 100 (filter_map sanitize_display_name segments))

decoded :
    (ns : List DisplayName)
    → AllNames ns
    → length ns ≤ 100
    → Ascending ns
    → into_checks (join 10 ns) ≡ record { names = ns }
unfolding into_checks
decoded [] h l a = unfold join split sanitize_display_name new_checks in refl
decoded (n ∷ ns) h l a =
    ap (λ (p : Text × List Text). decode_segments (p.0 ∷ p.1)) (split-join n ns h)
    ∙ (ap (λ ms. new_checks (take 100 ms)) (sanitized_again (n ∷ ns) h)
        ∙ (ap new_checks (take-all 100 (n ∷ ns) l)
            ∙ new_checks_fixed (record { names = n ∷ ns }) a l))

-- A set of sanitized names, written to the column and read back, is the same set, also when
-- it is empty.
pub into_checks-encode_check_names :
    (checks : RequiredChecks) → IsCheckSet checks → into_checks (encode_check_names checks) ≡ checks
unfolding encode_check_names
into_checks-encode_check_names checks h = decoded checks.names h.all_names h.few h.ascending

length-join :
    (n : DisplayName) (ns : List DisplayName)
    → AllNames (n ∷ ns)
    → length (join 10 (n ∷ ns)) + 1 ≤ 129 * length (n ∷ ns)
unfolding join
length-join n [] h = omega (arith, h.0.bounded)
length-join n (m ∷ ns) h =
    omega (arith, h.0.bounded, length-append n.text (10 ∷ join 10 (m ∷ ns)), length-join m ns h.1)

bounded_join : (ns : List DisplayName) → AllNames ns → length ns ≤ 100 → length (join 10 ns) ≤ 12899
unfolding join
bounded_join [] h l = omega arith
bounded_join (n ∷ ns) h l = omega (arith, length-join n ns h)

-- The column of a set of sanitized names has at most 12,899 characters, so the table's CHECK on
-- 16,384 of them is met.
pub length-encode_check_names :
    (checks : RequiredChecks)
    → IsCheckSet checks
    → (length (encode_check_names checks) ≤ 12899) × (length (encode_check_names checks) ≤ 16384)
unfolding encode_check_names
length-encode_check_names checks h =
    let bound = bounded_join checks.names h.all_names h.few in (bound, omega (arith, bound))

-- Any column is read as a set within the bounds.

AllNames-take : (n : ℕ) (ns : List DisplayName) → AllNames ns → AllNames (take n ns)
AllNames-take zero ns h = tt
AllNames-take (suc n) [] h = tt
AllNames-take (suc n) (m ∷ ns) h = (h.0, AllNames-take n ns h.1)

AllNames-sanitized : (ss : List Text) → AllNames (filter_map sanitize_display_name ss)
AllNames-sanitized [] = tt
AllNames-sanitized (s ∷ ss) = elim (Option-cases (sanitize_display_name s)) [
  | inl e ↦ rw e (AllNames-sanitized ss)
  | inr (n, e) ↦ rw e (sanitize-IsDisplayText s n e, AllNames-sanitized ss)
]

AllNames-insert :
    (n : DisplayName) (ns : List DisplayName)
    → IsDisplayText n.text
    → AllNames ns
    → AllNames (insert_name n ns)
unfolding insert_name
AllNames-insert n [] h k = (h, tt)
AllNames-insert n (m ∷ ns) h k = elim (Bool-cases (text_eq n.text m.text)) [
  | inl e ↦ rw e k
  | inr e ↦ elim (Bool-cases (text_lt n.text m.text)) [
    | inl l ↦ rw (e, l) (h, k)
    | inr l ↦ rw (e, l) (k.0, AllNames-insert n ns h k.1)
  ]
]

AllNames-retain :
    (ret ns : List DisplayName) → AllNames ret → AllNames ns → AllNames (retain_names ret ns)
unfolding retain_names
AllNames-retain ret [] h k = h
AllNames-retain ret (n ∷ ns) h k = elim (Bool-cases (length ret == 100)) [
  | inl e ↦ rw e h
  | inr e ↦ rw e (AllNames-retain (insert_name n ret) ns (AllNames-insert n ret k.0 h) k.1)
]

pub new_checks-IsCheckSet : (ns : List DisplayName) → AllNames ns → IsCheckSet (new_checks ns)
new_checks-IsCheckSet ns h =
    let bounds = new_checks_lem ns [] in
    record {
      ascending = bounds.0;
      few = bounds.1;
      all_names = unfold new_checks in AllNames-retain [] ns tt h;
    }

-- Whatever text the column holds, it is read as at most 100 sanitized names in ascending order.
pub into_checks-IsCheckSet : (check_names : Text) → IsCheckSet (into_checks check_names)
unfolding into_checks
into_checks-IsCheckSet check_names =
    let segments : List Text = (split 10 check_names).0 ∷ (split 10 check_names).1 in
    let names : List DisplayName = filter_map sanitize_display_name segments in
    new_checks-IsCheckSet (take 100 names) (AllNames-take 100 names (AllNames-sanitized segments))
