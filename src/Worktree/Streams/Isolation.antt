-- ===== src/Worktree/Streams/Isolation.antt =====
-- That the queues of worktrees do not mix (apps/api/src/nats.rs).
use epistl.Prelude.{
  ℕ, ◌≡◌, refl, ap, sym, ◌∙◌, ◌↔◌, Bool, true, false, ◌&&◌, ◌||◌, Option, none, some, List, [], ◌∷◌,
  ◌++◌, arith, if◌then◌else◌, codes, subst, any, ◌==◌,
}
use epistl.Text.{Text, same}
use epistl.Text.Laws.{same_refl, eq_of_same, Lacks}
use epistl.Worktree.{Process, worktree_slug, is_slug_char}
use epistl.Worktree.Names.{IsSlug, worktree_slug-IsSlug}
use epistl.Worktree.Streams.{
  effective_stream_subjects, effective_offline_subject, stream_subject_for, offline_subject_for,
  offline_subject,
}

abbrev extend_token : ℕ → List Text → List Text
extend_token c [] = (c ∷ []) ∷ []
extend_token c (t ∷ ts) = (c ∷ t) ∷ ts

abbrev next_token : ℕ → List Text → List Text
next_token c ts = if c == b'.' then [] ∷ ts else extend_token c ts

-- The tokens of a subject, between its dots.
pub tokens : Text → List Text
tokens [] = [] ∷ []
tokens (c ∷ s) = next_token c (tokens s)

-- Which subjects a filter takes, by the rules of NATS: `*` stands for one token, `>` for all that follow.
pub takes : List Text → List Text → Bool
takes [] [] = true
takes [] (t ∷ ts) = false
takes (f ∷ fs) [] = false
takes (f ∷ fs) (t ∷ ts) = same f (codes ">") || ((same f (codes "*") || same f t) && takes fs ts)

tokens_one : (s : Text) → Lacks b'.' s → tokens s ≡ s ∷ []
unfolding tokens
tokens_one [] h = refl
tokens_one (c ∷ s) h = ground (arith, tokens_one s)

tokens-append : (s t : Text) → Lacks b'.' s → tokens (s ++ b'.' ∷ t) ≡ s ∷ tokens t
unfolding tokens
tokens-append [] t h = refl
tokens-append (c ∷ s) t h = ground (arith, tokens-append s t)

Lacks-dot : (s : Text) → IsSlug s → Lacks b'.' s
unfolding is_slug_char
Lacks-dot [] h = refl
Lacks-dot (c ∷ s) h = ground (arith, Lacks-dot s)

-- No token of a slug is a wildcard.
same_mark : (s : Text) (m : ℕ) → is_slug_char m ≡ false → IsSlug s → same s (m ∷ []) ≡ false
unfolding is_slug_char same
same_mark [] m k h = refl
same_mark (c ∷ s) m k h = ground arith

not_greater : (s : Text) → IsSlug s → same s (codes ">") ≡ false
unfolding is_slug_char
not_greater s h = same_mark s b'>' refl h

not_star : (s : Text) → IsSlug s → same s (codes "*") ≡ false
unfolding is_slug_char
not_star s h = same_mark s b'*' refl h

and_true : (b : Bool) → (b && true) ≡ b
and_true true = refl
and_true false = refl

and_false : (b : Bool) → (b && false) ≡ false
and_false true = refl
and_false false = refl

-- Whether one of a stream's filters takes a subject.
abbrev pub accepted : List Text → Text → Bool
accepted filters subject = any (λ f. takes (tokens f) (tokens subject)) filters

module _ (shown : Text) (dotless : Lacks b'.' shown) where
  both :
      (s t : Text)
      → IsSlug s
      → IsSlug t
      → accepted (stream_subject_for (some t) ∷ []) (offline_subject_for (some s) shown) ≡ same t s
  unfolding takes tokens same
  both s t hs ht =
      rw
        (
          tokens-append t (codes "*") (Lacks-dot t ht),
          tokens-append s shown (Lacks-dot s hs),
          tokens_one shown dotless,
          not_greater t ht,
          not_star t ht,
        )
        (ground arith)

  base_only :
      (s : Text)
      → IsSlug s
      → accepted (stream_subject_for none ∷ []) (offline_subject_for (some s) shown) ≡ false
  unfolding takes tokens same
  base_only s hs = rw (tokens-append s shown (Lacks-dot s hs), tokens_one shown dotless) refl

  slug_only :
      (t : Text)
      → IsSlug t
      → accepted (stream_subject_for (some t) ∷ []) (offline_subject_for none shown) ≡ false
  unfolding takes tokens same offline_subject
  slug_only t ht =
      rw (tokens-append t (codes "*") (Lacks-dot t ht), tokens_one shown dotless, not_greater t ht)
        (ground arith)

  neither : accepted (stream_subject_for none ∷ []) (offline_subject_for none shown) ≡ true
  unfolding takes tokens same offline_subject
  neither = rw (tokens_one shown dotless) refl

  -- For a user's id that is written with no dot, the stream that a process sets up takes the subject to which
  -- another publishes for the user exactly if the two have the same slug, or neither has one.
  pub effective_offline_subject-accepted :
      (to_lowercase : Text → Text) (p q : Process)
      → (accepted
            (effective_stream_subjects to_lowercase q)
            (effective_offline_subject to_lowercase p shown)
          ≡ true)
        ↔ (worktree_slug to_lowercase p ≡ worktree_slug to_lowercase q)
  unfolding effective_stream_subjects effective_offline_subject
  effective_offline_subject-accepted to_lowercase p q =
      by_slugs (worktree_slug to_lowercase p) (worktree_slug to_lowercase q)
        (worktree_slug-IsSlug to_lowercase p) (worktree_slug-IsSlug to_lowercase q)
    where
      by_slugs :
          (o u : Option Text)
          → ((s : Text) → o ≡ some s → IsSlug s)
          → ((s : Text) → u ≡ some s → IsSlug s)
          → (accepted (stream_subject_for u ∷ []) (offline_subject_for o shown) ≡ true) ↔ (o ≡ u)
      by_slugs none none a b = (λ h. refl, λ h. neither)
      by_slugs (some s) none a b = (λ h. cc (h, base_only s (a s refl)), λ h. cc h)
      by_slugs none (some t) a b = (λ h. cc (h, slug_only t (b t refl)), λ h. cc h)
      by_slugs (some s) (some t) a b =
          let e = both s t (a s refl) (b t refl) in
          (
            λ h. ap some (sym (eq_of_same t s (sym e ∙ h))),
            λ h. rw e (subst (λ r. same r s ≡ true) (cc h) (same_refl s)),
          )
