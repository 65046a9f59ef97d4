-- ===== src/Registry/Table.antt =====
-- The registry as a table from users to channels: what its callers may rely on, with the order of
-- the entries forgotten (apps/api/src/registry.rs).
use epistl.Prelude.{
  ℕ, ◌≡◌, refl, ap, ◌==◌, ◌&&◌, ◌∙◌, inl, inr, Bool-cases, Option, none, some, List, [], ◌∷◌,
  if◌then◌else◌,
}
use epistl.Registry.{Hub, Frame, lookup, get, insert, clear_if_same, remove_if_current}
use epistl.Registry.Lookups.{get-insert, get-remove_if_current, is_at}

-- A call of the registry, and what it returns: for `insert` the connection that is replaced.
pub data Call : Type 0 where
  insertion : ℕ → ℕ → Call
  query : ℕ → Call
  removal : ℕ → ℕ → Call

abbrev pub Table : Type 0
Table = ℕ → Option ℕ

abbrev pub specified : Call → Table → Option ℕ × Table
specified (insertion v c) t = (t v, λ u. if v == u then some c else t u)
specified (query v) t = (t v, t)
specified (removal v c) t = (none, λ u. if is_at c (t v) && (v == u) then none else t u)

-- The answers to a sequence of calls, and the table after them.
abbrev pub specified_all : List Call → Table → List (Option ℕ) × Table
specified_all [] t = ([], t)
specified_all (call ∷ calls) t =
    let (answer, t') = specified call t in
    let (answers, t'') = specified_all calls t' in (answer ∷ answers, t'')

module _ {T : Type 0} where
  abbrev pub perform : Call → Hub T → Option ℕ × Hub T
  perform (insertion v c) h = insert v c h
  perform (query v) h = (get v h, h)
  perform (removal v c) h = (none, remove_if_current v c h)

  abbrev pub perform_all : List Call → Hub T → List (Option ℕ) × Hub T
  perform_all [] h = ([], h)
  perform_all (call ∷ calls) h =
      let (answer, h') = perform call h in
      let (answers, h'') = perform_all calls h' in (answer ∷ answers, h'')

  -- The registry holds the table, and its channels are these.
  pub record Holds (h : Hub T) (t : Table) (gone : List ℕ) (sent : List (ℕ × Frame T))
      : Type 0 where
    pub finds : (u : ℕ) → get u h ≡ t u
    pub same_gone : h.gone ≡ gone
    pub same_sent : h.sent ≡ sent

  removal_leaves :
      (u c : ℕ) (h : Hub T)
      → ((remove_if_current u c h).gone ≡ h.gone) × ((remove_if_current u c h).sent ≡ h.sent)
  unfolding remove_if_current clear_if_same
  removal_leaves u c h = by_lookup (lookup u h.entries)
    where
      by_lookup :
          (o : Option ℕ)
          → ((clear_if_same o u c h).gone ≡ h.gone) × ((clear_if_same o u c h).sent ≡ h.sent)
      by_lookup none = (refl, refl)
      by_lookup (some d) = elim (Bool-cases (d == c)) [
        | inl e ↦ rw e (refl, refl)
        | inr e ↦ rw e (refl, refl)
      ]

  -- What one call answers is what the table says, and the table is then the registry's.
  perform-Holds :
      {t : Table} {gone : List ℕ} {sent : List (ℕ × Frame T)} (call : Call) (h : Hub T)
      → Holds h t gone sent
      → ((perform call h).0 ≡ (specified call t).0)
        × Holds (perform call h).1 (specified call t).1 gone sent
  unfolding insert get
  perform-Holds (insertion v c) h holds = (
    holds.finds v,
    record {
      finds = λ u.
          (get-insert u v c h).0
          ∙ ap (λ (o : Option ℕ). if v == u then some c else o) (holds.finds u);
      same_gone = holds.same_gone;
      same_sent = holds.same_sent;
    },
  )
  perform-Holds (query v) h holds = (holds.finds v, holds)
  perform-Holds (removal v c) h holds =
      let (gone_left, sent_left) = removal_leaves v c h in
      (
        refl,
        record {
          finds = λ u.
              get-remove_if_current u v c h
              ∙ (λ i. if is_at c (holds.finds v i) && (v == u) then none else holds.finds u i);
          same_gone = gone_left ∙ holds.same_gone;
          same_sent = sent_left ∙ holds.same_sent;
        },
      )

  -- The registry refines the table: if it holds a table, then it answers any sequence of calls as the
  -- table does, holds the table that these calls make, and sends nothing.
  pub perform_all-Holds :
      {gone : List ℕ} {sent : List (ℕ × Frame T)} (calls : List Call) (t : Table) (h : Hub T)
      → Holds h t gone sent
      → ((perform_all calls h).0 ≡ (specified_all calls t).0)
        × Holds (perform_all calls h).1 (specified_all calls t).1 gone sent
  perform_all-Holds [] t h holds = (refl, holds)
  perform_all-Holds (call ∷ calls) t h holds =
      let (same_answer, then_holds) = perform-Holds call h holds in
      let (same_answers, at_end) =
        perform_all-Holds calls (specified call t).1 (perform call h).1 then_holds in
      ((λ i. same_answer i ∷ same_answers i), at_end)
