-- ===== src/Metadata/Tasks/Laws.antt =====
-- What processTask of ton-metadata-fetcher/main.go leaves in the tables, over a database that keeps
-- what PostgreSQL documents of its transactions.
use ton_indexer.Prelude.{
  ℕ, String, Option, none, some, ok, ◌≡◌, refl, sym, ap, subst, inl, inr, ◌⊎◌, Option-cases, arith,
}
use ton_indexer.Prelude.Text.{concat}
use ton_indexer.Metadata.Content.{AddressMetadata}
use ton_indexer.Metadata.Overrides.{FetchTask}
use ton_indexer.Metadata.Tables.{
  Tables, Statement, delete_task, upsert_valid, upsert_invalid, apply,
}
use ton_indexer.Metadata.Tasks.{
  Database, Settings, after, failure_statement, valid_row, invalid_row, handle_task_failure, store,
}

-- A transaction does what its statements do; after one that failed each further one fails; a commit
-- either fails, and the tables stay, or does what the transaction does.
pub record IsTransactional (d : Database) (now : ℕ) : Type 0 where
  pub begin_effect : (tx : d.Tx) (t : Tables) → d.begin ≡ ok tx → d.effect tx t ≡ t
  pub query_effect :
      (query arg : String) (tx : d.Tx) (t : Tables)
      → d.effect (d.query_row query arg tx).1 t ≡ d.effect tx t
  pub exec_done :
      (s : Statement) (tx : d.Tx) (t : Tables)
      → (d.exec s tx).0 ≡ none
      → d.effect (d.exec s tx).1 t ≡ apply now s (d.effect tx t)
  pub exec_failed :
      (s next : Statement) (tx : d.Tx) (e : String)
      → (d.exec s tx).0 ≡ some e
      → (e2 : String) × ((d.exec next (d.exec s tx).1).0 ≡ some e2)
  pub commit_effect :
      (tx : d.Tx) (t : Tables)
      → ((e : String) × (d.commit tx t ≡ (some e, t))) ⊎ (d.commit tx t ≡ (none, d.effect tx t))

-- A statement of the task that PostgreSQL refuses.
pub record Refused (d : Database) : Type 0 where
  pub statement : Statement
  pub before : d.Tx
  pub error : String
  pub refused : (d.exec statement before).0 ≡ some error

after-cases :
    {A : Type 0} (r : Option String × A) (f : String → A → Option String × A)
    (g : A → Option String × A)
    → ((e : String) × (r.0 ≡ some e) × (after r f g ≡ f e r.1))
      ⊎ ((r.0 ≡ none) × (after r f g ≡ g r.1))
after-cases (some e, tx) f g = inl (e, refl, refl)
after-cases (none, tx) f g = inr (refl, refl)

absurd_error : {P : Type 0} (o : Option String) → o ≡ none → ((e : String) × (o ≡ some e)) → P
absurd_error o p (e, q) = ground arith

-- The tables after a task that is done, and after one that has failed.
unfoldable pub done_tables : ℕ → FetchTask → AddressMetadata → Tables → Tables
done_tables now task content t =
    apply now (delete_task task.task_id) (apply now (upsert_valid (valid_row now task content)) t)

unfoldable pub failed_tables : Settings → ℕ → FetchTask → String → Tables → Tables
failed_tables s now task e t =
    apply now (upsert_invalid (invalid_row now task e)) (apply now (failure_statement s task e) t)

module _ (d : Database) (s : Settings) (now : ℕ) (laws : IsTransactional d now)
    (tables : Tables) where
  -- The tables with what the transaction does to them.
  abbrev view : d.Tx → Tables
  view tx = d.effect tx tables

  unfoldable pub IsError : Option String × d.Tx → Type 0
  IsError r = (e : String) × (r.0 ≡ some e) × Refused d

  refusal : (st : Statement) (tx : d.Tx) (e : String) → (d.exec st tx).0 ≡ some e → Refused d
  refusal st tx e p = record { statement = st; before = tx; error = e; refused = p }

  -- An error, which a statement has caused, or no error and these tables.
  unfoldable pub Ends : Option String × d.Tx → Tables → Type 0
  Ends r t = IsError r ⊎ ((r.0 ≡ none) × (view r.1 ≡ t))

  exec-Ends : (st : Statement) (tx : d.Tx) → Ends (d.exec st tx) (apply now st (view tx))
  unfolding Ends IsError
  exec-Ends st tx = elim (Option-cases (d.exec st tx).0) [
    | inl p ↦ inr (p, laws.exec_done st tx tables p)
    | inr (e, p) ↦ inl (e, p, refusal st tx e p)
  ]

  deleted : FetchTask → d.Tx → Option String × d.Tx
  deleted task u =
      after (d.exec (delete_task task.task_id) u)
        (λ e w. handle_task_failure d s now task (concat "failed to delete task: " e) w)
        (λ w. (none, w))

  after-Ends :
      (st : Statement) (tx : d.Tx) (f : String → d.Tx → Option String × d.Tx)
      (g : d.Tx → Option String × d.Tx) (t : Tables)
      → ((e : String) → (d.exec st tx).0 ≡ some e → IsError (f e (d.exec st tx).1))
      → ((u : d.Tx) → view u ≡ apply now st (view tx) → Ends (g u) t)
      → Ends (after (d.exec st tx) f g) t
  unfolding Ends
  after-Ends st tx f g t fails goes = elim (after-cases (d.exec st tx) f g) [
    | inl (e, p, q) ↦ inl (subst IsError (sym q) (fails e p))
    | inr (p, q) ↦
        subst (λ r. Ends r t) (sym q) (goes (d.exec st tx).1 (laws.exec_done st tx tables p))
  ]

  pub handle_task_failure-Ends :
      (task : FetchTask) (e : String) (tx : d.Tx)
      → Ends (handle_task_failure d s now task e tx) (failed_tables s now task e (view tx))
  unfolding handle_task_failure failed_tables IsError
  handle_task_failure-Ends task e tx =
      let last = upsert_invalid (invalid_row now task e) in
      after-Ends (failure_statement s task e) tx (λ e2 t. (some e2, t)) (λ t. d.exec last t) _
        (λ e2 p. (e2, refl, refusal (failure_statement s task e) tx e2 p))
        (λ u p. subst (λ v. Ends (d.exec last u) (apply now last v)) p (exec-Ends last u))

  -- In a transaction in which a statement has failed, the failure is not stored.
  handle_task_failure-IsError :
      (task : FetchTask) (e e1 : String) (st : Statement) (tx : d.Tx)
      → (d.exec st tx).0 ≡ some e1
      → IsError (handle_task_failure d s now task e (d.exec st tx).1)
  unfolding handle_task_failure IsError
  handle_task_failure-IsError task e e1 st tx p =
      let next = laws.exec_failed st (failure_statement s task e) tx e1 p in
      elim (after-cases (d.exec (failure_statement s task e) (d.exec st tx).1)
        (λ e2 t. (some e2, t)) (λ t. d.exec (upsert_invalid (invalid_row now task e)) t)) [
          | inl (e2, q, r) ↦ (e2, ap (λ x. x.0) r, refusal st tx e1 p)
          | inr (q, r) ↦
              absurd_error (d.exec (failure_statement s task e) (d.exec st tx).1).0 q next
        ]

  pub store-Ends :
      (task : FetchTask) (content : AddressMetadata) (tx : d.Tx)
      → Ends (store d s now task content tx) (done_tables now task content (view tx))
  unfolding store done_tables deleted Ends IsError
  store-Ends task content tx =
      let last = delete_task task.task_id in
      let first = upsert_valid (valid_row now task content) in
      after-Ends first tx (λ e t. handle_task_failure d s now task e t) (deleted task) _
        (λ e p. handle_task_failure-IsError task e e first tx p)
        (λ u p.
          subst (λ v. Ends (deleted task u) (apply now last v)) p
            (after-Ends last u
              (λ e w. handle_task_failure d s now task (concat "failed to delete task: " e) w)
              (λ w. (none, w)) _ (λ e q. handle_task_failure-IsError task _ e last u q)
              (λ w q. inr (refl, q))))
