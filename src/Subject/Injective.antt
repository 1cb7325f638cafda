-- ===== src/Subject/Injective.antt =====
-- model/session.go: where tenants and names hold no dot, a subject belongs to one of them only.
use Prim.Native.String.{◌++◌}
use Prim.Native.String.append
use Prim.Native.Char.{Char, code}
use text.Mathlib.TextLemmas.{append_cancel_left, head-eq_of_cons-eq, tail-eq_of_cons-eq}
use mathlib.Core.Path.{subst}
use deviceconnect.Prelude.{
  String, Bool, true, false, ◌≡◌, refl, ap, ◌∙◌, sym, arith, str_eq, str_eq_iff, if◌then◌else◌,
  ◌==◌, Bool-cases, inl, inr,
}
use deviceconnect.Subject.{session_subject, device_subject}

abbrev pub has_dot : String → Bool
has_dot String.[] = false
has_dot (String.◌∷◌ c s) = if code c == b'.' then true else has_dot s

dotted : (u : String) → "." ++ u ≡ String.◌∷◌ "." u
dotted u = append.cons "." String.[] u ∙ ap (String.◌∷◌ ".") (append.nil u)

no_dot : (d : Char) (t : String) → d ≡ "." → has_dot (String.◌∷◌ d t) ≡ false → ⊥
no_dot d t p h = differ (subst (λ c. has_dot (String.◌∷◌ c t) ≡ false) p h)
  where
    differ : true ≡ false → ⊥
    differ q = cc

-- A text that begins with a dot is none that begins with `d` and has no dot before `y`.
dot_first :
    (d : Char) (t u y : String)
    → has_dot (String.◌∷◌ d t) ≡ false
    → "." ++ u ≡ String.◌∷◌ d t ++ y
    → ⊥
dot_first d t u y h e =
    no_dot d t (head-eq_of_cons-eq (sym (append.cons d t y) ∙ sym e ∙ dotted u)) h

has_dot-tail : (c : Char) (s : String) → has_dot (String.◌∷◌ c s) ≡ false → has_dot s ≡ false
has_dot-tail c s h = ground arith

-- The part before the first dot, and the part after it, are determined.
dot_split :
    (s t u v : String)
    → has_dot s ≡ false
    → has_dot t ≡ false
    → s ++ ("." ++ u) ≡ t ++ ("." ++ v)
    → (s ≡ t) × (u ≡ v)
dot_split String.[] String.[] u v hs ht e =
    (refl, append_cancel_left "." u v (sym (append.nil ("." ++ u)) ∙ e ∙ append.nil ("." ++ v)))
dot_split String.[] (String.◌∷◌ d t) u v hs ht e =
    absurd (dot_first d t u ("." ++ v) ht (sym (append.nil ("." ++ u)) ∙ e))
dot_split (String.◌∷◌ c s) String.[] u v hs ht e =
    absurd (dot_first c s v ("." ++ u) hs (sym (append.nil ("." ++ v)) ∙ sym e))
dot_split (String.◌∷◌ c s) (String.◌∷◌ d t) u v hs ht e =
    let e' = sym (append.cons c s ("." ++ u)) ∙ e ∙ append.cons d t ("." ++ v) in
    let ih =
      dot_split s t u v (has_dot-tail c s hs) (has_dot-tail d t ht) (tail-eq_of_cons-eq e') in
    ((λ i. String.◌∷◌ (head-eq_of_cons-eq e' i) (ih.0 i)), ih.1)

-- A text with a dot in the middle has a dot.
has_dot-append : (s u : String) → has_dot (s ++ ("." ++ u)) ≡ true
has_dot-append String.[] u = rw (append.nil ("." ++ u), dotted u)
has_dot-append (String.◌∷◌ c s) u =
    rw (append.cons c s ("." ++ u)) (ground (arith, has_dot-append s u))

dotted_name : (s t u : String) → has_dot s ≡ false → s ≡ t ++ ("." ++ u) → ⊥
dotted_name s t u h e = absurd (differ (sym h ∙ ap has_dot e ∙ has_dot-append t u))
  where
    differ : false ≡ true → ⊥
    differ q = cc

-- The common shape of the two kinds of subject.
subject_of : String → String → String → String
subject_of kind tenant name =
    if str_eq tenant "" then kind ++ ("." ++ name) else kind ++ ("." ++ (tenant ++ ("." ++ name)))

subject_of-injective :
    (kind tenant tenant' name name' : String)
    → has_dot tenant ≡ false
    → has_dot tenant' ≡ false
    → has_dot name ≡ false
    → has_dot name' ≡ false
    → has_dot kind ≡ false
    → subject_of kind tenant name ≡ subject_of kind tenant' name'
    → (tenant ≡ tenant') × (name ≡ name')
unfolding subject_of
subject_of-injective kind tenant tenant' name name' ht ht' hn hn' hk e =
    elim (Bool-cases (str_eq tenant "")) [
      | inl p ↦ elim (Bool-cases (str_eq tenant' "")) [
        | inl p' ↦ (
          (str_eq_iff tenant "").0 p ∙ sym ((str_eq_iff tenant' "").0 p'),
          (dot_split kind kind name name' hk hk (rw (p, p') at e)).1,
        )
        | inr q' ↦ absurd (
            dotted_name name tenant' name' hn
              (dot_split kind kind name (tenant' ++ ("." ++ name')) hk hk (rw (p, q') at e)).1)
      ]
      | inr q ↦ elim (Bool-cases (str_eq tenant' "")) [
        | inl p' ↦ absurd (
            dotted_name name' tenant name hn'
              (sym (dot_split kind kind (tenant ++ ("." ++ name)) name' hk hk (rw (q, p') at e)).1))
        | inr q' ↦
            dot_split tenant tenant' name name' ht ht'
              (dot_split kind kind (tenant ++ ("." ++ name)) (tenant' ++ ("." ++ name')) hk hk
                (rw (q, q') at e)).1
      ]
    ]

-- Where tenants and sessions hold no dot, two sessions share a subject only if they are the same
-- session of the same tenant.
pub session_subject-injective :
    (tenant tenant' session session' : String)
    → has_dot tenant ≡ false
    → has_dot tenant' ≡ false
    → has_dot session ≡ false
    → has_dot session' ≡ false
    → session_subject tenant session ≡ session_subject tenant' session'
    → (tenant ≡ tenant') × (session ≡ session')
unfolding session_subject subject_of
session_subject-injective tenant tenant' session session' ht ht' hs hs' e =
    subject_of-injective "session" tenant tenant' session session' ht ht' hs hs' refl e

-- The same for devices.
pub device_subject-injective :
    (tenant tenant' device device' : String)
    → has_dot tenant ≡ false
    → has_dot tenant' ≡ false
    → has_dot device ≡ false
    → has_dot device' ≡ false
    → device_subject tenant device ≡ device_subject tenant' device'
    → (tenant ≡ tenant') × (device ≡ device')
unfolding device_subject subject_of
device_subject-injective tenant tenant' device device' ht ht' hd hd' e =
    subject_of-injective "device" tenant tenant' device device' ht ht' hd hd' refl e
