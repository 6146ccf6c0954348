-- ===== src/Telemetry/Workflow/Sanitized.antt =====
-- What the names and branches of src/telemetry/workflow.rs hold after they are sanitized.
use github_webhook_exporter.Prelude.{
  ℕ, zero, suc, ◌+◌, ◌≤◌, ◌≡◌, ◌≢◌, refl, ◌==◌, Bool, true, false, not, List, [], ◌∷◌, ◌++◌, arith,
  keep, take, any, all, length, length-take, Text, lit, text_eq, split, none, some, if◌then◌else◌,
}
use github_webhook_exporter.Telemetry.Workflow.Names.{
  visible, DisplayName, sanitize_from, nonempty_name, sanitize_display_name, WorkflowBranch,
  unsafe_segment, has_unsafe_segment, sanitize_branch,
}

sanitize_from-take :
    (r left : ℕ) (s : Text) → r + left ≡ 128 → sanitize_from r s ≡ take left (keep visible s)
unfolding sanitize_from
sanitize_from-take r zero [] h = refl
sanitize_from-take r (suc n) [] h = refl
sanitize_from-take r zero (c ∷ s) h = ground (arith, sanitize_from-take r zero s)
sanitize_from-take r (suc n) (c ∷ s) h =
    ground (arith, sanitize_from-take r (suc n) s, sanitize_from-take (r + 1) n s)

-- A display name is what is left of the first 128 characters that are not control characters, if
-- there are any.
pub sanitize_display_name_lem :
    (value : Text) → sanitize_display_name value ≡ nonempty_name (take 128 (keep visible value))
unfolding sanitize_display_name
sanitize_display_name_lem value = rw (sanitize_from-take 0 128 value refl) refl

pub all-visible-keep : (s : Text) → all visible (keep visible s) ≡ true
all-visible-keep [] = refl
all-visible-keep (c ∷ s) = ground (arith, all-visible-keep s)

pub all-take : (p : ℕ → Bool) (n : ℕ) (s : Text) → all p s ≡ true → all p (take n s) ≡ true
all-take p zero s h = refl
all-take p (suc n) [] h = refl
all-take p (suc n) (c ∷ s) h = ground (arith, all-take p n s)

pub keep-all : (p : ℕ → Bool) (s : Text) → all p s ≡ true → keep p s ≡ s
keep-all p [] h = refl
keep-all p (c ∷ s) h = ground (arith, keep-all p s)

pub take-all {ℓ} : {A : Type ℓ} (n : ℕ) (s : List A) → length s ≤ n → take n s ≡ s
take-all zero [] h = refl
take-all zero (c ∷ s) h = absurd (omega arith)
take-all (suc n) [] h = refl
take-all (suc n) (c ∷ s) h = ground (arith, take-all n s)

-- A text that a display name can hold.
pub record IsDisplayText (s : Text) : Type 0 where
  pub nonempty : 1 ≤ length s
  pub bounded : length s ≤ 128
  pub printable : all visible s ≡ true

nonempty_name-IsDisplayText :
    (s : Text) (n : DisplayName)
    → length s ≤ 128
    → all visible s ≡ true
    → nonempty_name s ≡ some n
    → (n.text ≡ s) × IsDisplayText s
nonempty_name-IsDisplayText [] n l v e = cc
nonempty_name-IsDisplayText (c ∷ s) n l v e =
    (ground arith, record { nonempty = omega arith; bounded = l; printable = v })

pub sanitize-IsDisplayText :
    (value : Text) (n : DisplayName) → sanitize_display_name value ≡ some n → IsDisplayText n.text
sanitize-IsDisplayText value n e =
    let s : Text = take 128 (keep visible value) in
    let (same, ok) =
      nonempty_name-IsDisplayText s n (omega (arith, length-take 128 (keep visible value)))
        (all-take visible 128 (keep visible value) (all-visible-keep value))
        (rw (sanitize_display_name_lem value) at e) in
    rw same ok

nonempty_name_fixed : (s : Text) → 1 ≤ length s → nonempty_name s ≡ some (record { text = s })
nonempty_name_fixed [] h = absurd (omega arith)
nonempty_name_fixed (c ∷ s) h = refl

pub sanitize_fixed :
    (n : DisplayName) → IsDisplayText n.text → sanitize_display_name n.text ≡ some n
sanitize_fixed n h =
    rw
      (
        sanitize_display_name_lem n.text,
        keep-all visible n.text h.printable,
        take-all 128 n.text h.bounded,
      )
      (nonempty_name_fixed n.text h.nonempty)

-- Branches.

-- No segment of the text is empty, `.` or `..`.
abbrev pub HasSafeSegments : Text → Type 0
HasSafeSegments s = has_unsafe_segment s ≡ false

-- A segment that ends at the first separator is the first one.
first_segment :
    (s seg q : Text)
    → all (λ c. not (c == b'/')) seg ≡ true
    → s ++ b'/' ∷ [] ≡ seg ++ b'/' ∷ q
    → (split b'/' s).0 ≡ seg
unfolding split
first_segment [] [] q h e = refl
first_segment [] (d ∷ seg) q h e = ground arith
first_segment (c ∷ s) [] q h e = ground arith
first_segment (c ∷ s) (d ∷ seg) q h e = ground (arith, first_segment s seg q)

-- A later one is found by a test that it passes.
later_segment :
    (p : Text → Bool) (s a seg q : Text)
    → all (λ c. not (c == b'/')) seg ≡ true
    → p seg ≡ true
    → s ++ b'/' ∷ [] ≡ a ++ b'/' ∷ (seg ++ b'/' ∷ q)
    → any p (split b'/' s).1 ≡ true
unfolding split
later_segment p [] [] [] q h t e = ground arith
later_segment p [] [] (d ∷ seg) q h t e = ground arith
later_segment p [] (d ∷ []) seg q h t e = ground arith
later_segment p [] (d ∷ x ∷ a) seg q h t e = ground arith
later_segment p (c ∷ s) [] seg q h t e = ground (arith, first_segment s seg q)
later_segment p (c ∷ s) (d ∷ a) seg q h t e = ground (arith, later_segment p s a seg q)

-- A text whose segments are safe, put between two slashes, holds none of the unsafe ones between
-- two slashes.
no_unsafe_segment :
    (s a seg q : Text)
    → HasSafeSegments s
    → all (λ c. not (c == b'/')) seg ≡ true
    → unsafe_segment seg ≡ true
    → b'/' ∷ (s ++ b'/' ∷ []) ≢ a ++ b'/' ∷ (seg ++ b'/' ∷ q)
unfolding has_unsafe_segment
no_unsafe_segment s [] seg q safe h t e = ground (arith, first_segment s seg q)
no_unsafe_segment s (d ∷ a) seg q safe h t e =
    ground (arith, later_segment unsafe_segment s a seg q)

accepted :
    (bad : Bool) (s : Text) (b : WorkflowBranch)
    → (if bad then none else some (record { text = s })) ≡ some b
    → (b.text ≡ s) × (bad ≡ false)
accepted bad s b e = ground arith

sanitize_branch_parts :
    (value : Text) (b : WorkflowBranch)
    → sanitize_branch value ≡ some b
    → (b.text ≡ take 255 (keep visible value)) × HasSafeSegments b.text
unfolding sanitize_branch
sanitize_branch_parts value b e =
    let s : Text = take 255 (keep visible value) in
    let (same, safe) = accepted (has_unsafe_segment s) s b e in (same, rw same safe)

sanitize_branch_fixed :
    (b : WorkflowBranch)
    → all visible b.text ≡ true
    → length b.text ≤ 255
    → HasSafeSegments b.text
    → sanitize_branch b.text ≡ some b
unfolding sanitize_branch
sanitize_branch_fixed b v l safe = rw (keep-all visible b.text v, take-all 255 b.text l, safe) refl

pub sanitize_branch_again :
    (value : Text) (b : WorkflowBranch)
    → sanitize_branch value ≡ some b
    → sanitize_branch b.text ≡ some b
sanitize_branch_again value b e =
    let (same, safe) = sanitize_branch_parts value b e in
    sanitize_branch_fixed b
      (rw same (all-take visible 255 (keep visible value) (all-visible-keep value)))
      (rw same (omega (arith, length-take 255 (keep visible value)))) safe

-- A sanitized branch is the first 255 characters of the value that are not control characters.
-- Put between two slashes, it has no `//`, `/./` or `/../`, and sanitizing it again
-- changes nothing.
pub sanitize_branch-IsSafe :
    (value : Text) (b : WorkflowBranch)
    → sanitize_branch value ≡ some b
    → (b.text ≡ take 255 (keep visible value))
      × (length b.text ≤ 255)
      × (sanitize_branch b.text ≡ some b)
      × ((p q : Text) → b'/' ∷ (b.text ++ lit "/") ≢ p ++ (lit "//" ++ q))
      × ((p q : Text) → b'/' ∷ (b.text ++ lit "/") ≢ p ++ (lit "/./" ++ q))
      × ((p q : Text) → b'/' ∷ (b.text ++ lit "/") ≢ p ++ (lit "/../" ++ q))
unfolding unsafe_segment text_eq
sanitize_branch-IsSafe value b e =
    let (same, safe) = sanitize_branch_parts value b e in
    (
      same,
      rw same (omega (arith, length-take 255 (keep visible value))),
      sanitize_branch_again value b e,
      (λ p q. no_unsafe_segment b.text p [] q safe refl refl),
      (λ p q. no_unsafe_segment b.text p (lit ".") q safe refl refl),
      (λ p q. no_unsafe_segment b.text p (lit "..") q safe refl refl),
    )
