-- ===== src/Store/History.antt =====
-- What holds of the table of tasks after any changes of the kind `Evolves`.
use investment_backend.Base.{
  ℕ, ◌≤◌, ◌≡◌, ◌≢◌, refl, sym, ◌∙◌, ap, subst, some-injective, Bool, true, false, ◌&&◌, none, some,
  ◌⊎◌, inl, inr, Dict, lookup, insert, lookup-insert, lookup-insert_ne, ne_of_missing, insert-cases,
  AllRows, AllRows-insert, AllRows-lookup, any_other-lookup, arith, Bool-cases, ◌==◌, ==_iff,
  if◌then◌else◌,
}
use investment_backend.States.{TaskState, is_task_terminal}
use investment_backend.States.Graph.{◌⟶◌, ◌⟶*◌, here, next, terminal_absorbs}
use investment_backend.Store.Rows.{Task}
use investment_backend.Store.Queries.{holds_project, breaks_index}
use investment_backend.Store.Evolves.{Edit, Evolves, unchanged, added, edited, WaitIsExplained}

-- What a row has become: further along the diagram, at a later version, and the same request.
pub record Becomes (t u : Task) : Type 0 where
  pub path : t.state ⟶* u.state
  pub version : t.state_version ≤ u.state_version
  pub owner : u.owner_actor_id ≡ t.owner_actor_id
  pub session : u.session_id ≡ t.session_id
  pub project : u.project_id ≡ t.project_id
  pub profile : u.profile_id ≡ t.profile_id
  pub digest : u.request_digest ≡ t.request_digest

Becomes-refl : (t : Task) → Becomes t t
Becomes-refl t = record {
  path = here;
  version = omega arith;
  owner = refl;
  session = refl;
  project = refl;
  profile = refl;
  digest = refl;
}

path_of : (s t u : TaskState) → s ⟶* t → (u ≡ t) ⊎ (t ⟶ u) → s ⟶* u
path_of s t u p (inl same) = rw same p
path_of s t u p (inr edge) = next p edge

Becomes-Edit : (t u v : Task) → Becomes t u → Edit u v → Becomes t v
Becomes-Edit t u v b e = record {
  path = path_of t.state u.state v.state b.path e.moves;
  version = omega (arith, b.version, e.version);
  owner = e.owner ∙ b.owner;
  session = e.session ∙ b.session;
  project = e.project ∙ b.project;
  profile = e.profile ∙ b.profile;
  digest = e.digest ∙ b.digest;
}

pub Lasts : ℕ → Task → Dict Task → Type 0
Lasts id t d = (u : Task) × (lookup id d ≡ some u) × Becomes t u

edited_row :
    (e : Dict Task) (id k : ℕ) (t old new : Task)
    → lookup k e ≡ some old
    → Edit old new
    → (u : Task) → lookup id e ≡ some u
    → Becomes t u
    → Lasts id t (insert k new e)
unfolding Lasts
edited_row e id k t old new was edit u there grown = elim (Bool-cases (id == k)) [
  | inl same ↦ (
    new,
    lookup-insert id k new e ∙ ap (λ (b : Bool). if b then some new else lookup id e) same,
    Becomes-Edit t old new
        (subst (Becomes t)
          (some-injective u old
            (sym there ∙ ap (λ (x : ℕ). lookup x e) ((==_iff id k).0 same) ∙ was))
          grown)
        edit,
  )
  | inr other ↦ (
    u,
    lookup-insert id k new e ∙ ap (λ (b : Bool). if b then some new else lookup id e) other ∙ there,
    grown,
  )
]

-- A row is never lost.
pub Evolves-Lasts :
    {d e : Dict Task} (id : ℕ) (t : Task) → lookup id d ≡ some t → Evolves d e → Lasts id t e
unfolding Lasts
Evolves-Lasts id t found unchanged = (t, found, Becomes-refl t)
Evolves-Lasts id t found (added {e = e} k new before fresh start room) =
    let (u, there, grown) = Evolves-Lasts id t found before in
    (u, lookup-insert_ne id k new e (ne_of_missing id k e fresh there) ∙ there, grown)
Evolves-Lasts id t found (edited {e = e} k old new before was edit room) =
    let (u, there, grown) = Evolves-Lasts id t found before in
    edited_row e id k t old new was edit u there grown

-- A row in a final state keeps it.
pub Lasts-final :
    (e : Dict Task) (id : ℕ) (t : Task)
    → is_task_terminal t.state ≡ true
    → Lasts id t e
    → (u : Task) × (lookup id e ≡ some u) × (u.state ≡ t.state)
unfolding Lasts
Lasts-final e id t final (u, there, grown) = (u, there, terminal_absorbs grown.path final)

opt_eq_self : (n : ℕ) → (n == n) && true ≡ true
opt_eq_self n = rw ((==_iff n n).1 refl) refl

-- A task of the project is at work: it has just come in and stands behind no other, or it is
-- checked, ready, running or waiting.
pub data AtWork (project : ℕ) (t : Task) : Type 0 where
  come_in :
      t.project_id ≡ some project
      → t.state ≡ TaskState.received
      → t.queued_behind ≡ none
      → AtWork project t
  being_checked : t.project_id ≡ some project → t.state ≡ TaskState.validating → AtWork project t
  ready : t.project_id ≡ some project → t.state ≡ TaskState.queued → AtWork project t
  driven : t.project_id ≡ some project → t.state ≡ TaskState.running → AtWork project t
  asking : t.project_id ≡ some project → t.state ≡ TaskState.waiting → AtWork project t

-- What is at work has the place in the index.
pub AtWork-holds_project :
    (project : ℕ) (t : Task) → AtWork project t → holds_project project t ≡ true
unfolding holds_project
AtWork-holds_project project t (come_in p s q) = rw p (rw s (rw q (opt_eq_self project)))
AtWork-holds_project project t (being_checked p s) = rw p (rw s (opt_eq_self project))
AtWork-holds_project project t (ready p s) = rw p (rw s (opt_eq_self project))
AtWork-holds_project project t (driven p s) = rw p (rw s (opt_eq_self project))
AtWork-holds_project project t (asking p s) = rw p (rw s (opt_eq_self project))

-- At most one task of a project is at work.
abbrev pub OneExpert : Dict Task → Type 0
OneExpert d =
    (project i j : ℕ) (t u : Task)
    → lookup i d ≡ some t
    → lookup j d ≡ some u
    → AtWork project t
    → AtWork project u
    → i ≡ j

-- What the index lets in has no rival.
room_alone :
    (e : Dict Task) (project k j : ℕ) (new u : Task)
    → breaks_index k new e ≡ false
    → lookup j e ≡ some u
    → holds_project project new ≡ true
    → holds_project project u ≡ true
    → k ≡ j
unfolding breaks_index
room_alone e project k j new u room there mine other = elim (Bool-cases (k == j)) [
  | inl same ↦ (==_iff k j).0 same
  | inr ne ↦ ground (
    arith,
    any_other-lookup k j (holds_project project) e there other,
    room,
    mine,
    (==_iff k j).1,
  )
]

OneExpert-insert :
    (e : Dict Task) (k : ℕ) (new : Task)
    → OneExpert e
    → breaks_index k new e ≡ false
    → OneExpert (insert k new e)
OneExpert-insert e k new one room project i j t u ti uj ht hu =
    four (insert-cases i k new e ti) (insert-cases j k new e uj)
  where
    four :
        ((i ≡ k) × (t ≡ new)) ⊎ ((i ≢ k) × (lookup i e ≡ some t))
        → ((j ≡ k) × (u ≡ new)) ⊎ ((j ≢ k) × (lookup j e ≡ some u))
        → i ≡ j
    four (inl p) (inl q) = p.0 ∙ sym q.0
    four (inl p) (inr q) =
        p.0
        ∙ room_alone e project k j new u room q.1
            (AtWork-holds_project project new (subst (AtWork project) p.1 ht))
            (AtWork-holds_project project u hu)
    four (inr p) (inl q) = sym (
        q.0
        ∙ room_alone e project k i new t room p.1
            (AtWork-holds_project project new (subst (AtWork project) q.1 hu))
            (AtWork-holds_project project t ht))
    four (inr p) (inr q) = one project i j t u p.1 q.1 ht hu

pub Evolves-OneExpert : {d e : Dict Task} → OneExpert d → Evolves d e → OneExpert e
Evolves-OneExpert one unchanged = one
Evolves-OneExpert one (added {e = e} k new before fresh start room) =
    OneExpert-insert e k new (Evolves-OneExpert one before) room
Evolves-OneExpert one (edited {e = e} k old new before was edit room) =
    OneExpert-insert e k new (Evolves-OneExpert one before) room

-- Every task that waits says what for.
abbrev pub WaitsExplained : Dict Task → Type 0
WaitsExplained = AllRows WaitIsExplained

pub Evolves-WaitsExplained : {d e : Dict Task} → WaitsExplained d → Evolves d e → WaitsExplained e
Evolves-WaitsExplained h unchanged = h
Evolves-WaitsExplained h (added {e = e} k new before fresh start room) =
    AllRows-insert WaitIsExplained k new e (λ w. ground (arith, start))
      (Evolves-WaitsExplained h before)
Evolves-WaitsExplained h (edited {e = e} k old new before was edit room) =
    let rows = Evolves-WaitsExplained h before in
    AllRows-insert WaitIsExplained k new e
      (edit.explained (AllRows-lookup WaitIsExplained k e rows was)) rows
