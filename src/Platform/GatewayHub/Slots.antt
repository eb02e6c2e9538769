-- ===== src/Platform/GatewayHub/Slots.antt =====
-- What the hub's operations leave of the pending commands.
use ygate_git.Base.{
  ℕ, suc, zero, ◌≡◌, ◌≢◌, refl, sym, ap, subst, ◌∙◌, Bool, true, false, Bool-cases, Option-cases,
  inl, inr, Option, none, some, List, [], ◌∷◌, ◌++◌, length, get_elem?, ◌⊎◌, ◌==◌, ==_iff, All,
  arith,
}
use ygate_git.Base.Text.{Text, text_eq, text_eq_iff, text_eq_refl}
use ygate_git.Middleware.Store.File.{map_get, map_put}
use ygate_git.Middleware.Service.Idle.{map_delete}
use ygate_git.Middleware.Service.Heartbeat.{map_get-put, map_get-put_other, map_get-delete}
use ygate_git.Platform.GatewayHub.{
  PendingCommand, Conn, Hub, new_conn, set_at, register, pending_of, pending_at, add_pending,
  delete_pending, change,
}

module _ {ℓ} {A : Type ℓ} where
  pub get_elem?-set_at :
      (i : ℕ) (x y : A) (xs : List A)
      → get_elem? xs i ≡ some x
      → get_elem? (set_at i y xs) i ≡ some y
  unfolding set_at
  get_elem?-set_at i x y [] h = absurd (cc)
  get_elem?-set_at zero x y (z ∷ xs) h = refl
  get_elem?-set_at (suc i) x y (z ∷ xs) h = get_elem?-set_at i x y xs h

  pub get_elem?-set_at_other :
      (i j : ℕ) (y : A) (xs : List A) → i ≢ j → get_elem? (set_at i y xs) j ≡ get_elem? xs j
  unfolding set_at
  get_elem?-set_at_other i j y [] h = refl
  get_elem?-set_at_other zero zero y (z ∷ xs) h = absurd (h refl)
  get_elem?-set_at_other zero (suc j) y (z ∷ xs) h = refl
  get_elem?-set_at_other (suc i) zero y (z ∷ xs) h = refl
  get_elem?-set_at_other (suc i) (suc j) y (z ∷ xs) h =
      get_elem?-set_at_other i j y xs (λ e. h (ap suc e))

  -- What was in the list is there still, and the new item is behind it.
  pub get_elem?-append_one :
      (i : ℕ) (y x : A) (xs : List A)
      → get_elem? xs i ≡ some x
      → get_elem? (xs ++ (y ∷ [])) i ≡ some x
  get_elem?-append_one i y x [] h = absurd (cc)
  get_elem?-append_one zero y x (z ∷ xs) h = h
  get_elem?-append_one (suc i) y x (z ∷ xs) h = get_elem?-append_one i y x xs h

  pub get_elem?-append_last :
      (y : A) (xs : List A) → get_elem? (xs ++ (y ∷ [])) (length xs) ≡ some y
  get_elem?-append_last y [] = refl
  get_elem?-append_last y (z ∷ xs) = get_elem?-append_last y xs

All-set_at {ℓ κ} :
    {A : Type ℓ} (P : A → Type κ) (i : ℕ) (y : A) (xs : List A)
    → P y
    → All P xs
    → All P (set_at i y xs)
unfolding set_at
All-set_at P i y [] p h = tt
All-set_at P zero y (x ∷ xs) p h = (p, h.1)
All-set_at P (suc i) y (x ∷ xs) p h = (h.0, All-set_at P i y xs p h.1)

pub some_inj {ℓ} : {A : Type ℓ} (x y : A) → ◌≡◌ {A = Option A} (some x) (some y) → x ≡ y
some_inj x y h = cc

pub All-get_elem? {ℓ κ} :
    {A : Type ℓ} (P : A → Type κ) (i : ℕ) (x : A) (xs : List A)
    → get_elem? xs i ≡ some x
    → All P xs
    → P x
All-get_elem? P i x [] e h = absurd (cc)
All-get_elem? P zero x (y ∷ xs) e h = subst P (some_inj y x e) h.0
All-get_elem? P (suc i) x (y ∷ xs) e h = All-get_elem? P i x xs e h.1

pub none-some {ℓ} : {A : Type ℓ} (x : A) → ◌≡◌ {A = Option A} none (some x) → ⊥
none-some x h = cc

absurd_from : {b : Bool} → b ≡ true → b ≡ false → ⊥
absurd_from h k = cc

not_same : (j i : Text) → i ≢ j → text_eq j i ≡ false
not_same j i other = elim (Bool-cases (text_eq j i)) [
  | inl same ↦ absurd (other (sym ((text_eq_iff j i).0 same)))
  | inr differs ↦ differs
]

apart : (i j : Text) → text_eq i j ≡ false → i ≢ j
apart i j other e = absurd_from ((text_eq_iff i j).1 e) other

map_get-delete_other :
    {V : Type 0} (i j : Text) (m : List (Text × V))
    → i ≢ j
    → map_get i (map_delete j m) ≡ map_get i m
unfolding map_get map_delete
map_get-delete_other i j [] other = refl
map_get-delete_other i j ((k, v) ∷ m) other = elim (Bool-cases (text_eq k j)) [
  | inl gone ↦
      rw
        (
          (text_eq_iff k j).0 gone,
          text_eq_refl j,
          not_same j i other,
          map_get-delete_other i j m other,
        )
        refl
  | inr stays ↦ rw (stays, map_get-delete_other i j m other) refl
]

pending_of_found :
    (c : ℕ) (command_id : Text) (h : Hub) (conn : Conn)
    → get_elem? h.made c ≡ some conn
    → pending_of c command_id h ≡ map_get command_id conn.pending
unfolding pending_of
pending_of_found c command_id h conn found = rw found refl

pending_at-append :
    (c : ℕ) (command_id : Text) (cs : List Conn)
    → pending_at (get_elem? (cs ++ (new_conn ∷ [])) c) command_id
      ≡ pending_at (get_elem? cs c) command_id
unfolding map_get
pending_at-append zero command_id [] = refl
pending_at-append (suc c) command_id [] = refl
pending_at-append zero command_id (d ∷ cs) = refl
pending_at-append (suc c) command_id (d ∷ cs) = pending_at-append c command_id cs

-- A connection that is new, or that gives up its gateway's place, has no part in what is pending.
pub pending_of-register :
    (c : ℕ) (command_id gateway_id : Text) (h : Hub)
    → pending_of c command_id (register gateway_id h).0 ≡ pending_of c command_id h
unfolding register pending_of
pending_of-register c command_id gateway_id h = pending_at-append c command_id h.made

pub differ : (d c : ℕ) → (d == c) ≡ false → d ≢ c
differ d c h e = ground arith

pending_at-set_at_other :
    (c d : ℕ) (command_id : Text) (new : Conn) (cs : List Conn)
    → d ≢ c
    → pending_at (get_elem? (set_at d new cs) c) command_id ≡ pending_at (get_elem? cs c) command_id
pending_at-set_at_other c d command_id new cs other =
    rw (get_elem?-set_at_other d c new cs other) refl

module _ (f : Conn → Conn) (d : ℕ) (h : Hub) where
  -- What is done to a connection shows only in it.
  pub pending_of-change_other :
      (c : ℕ) (command_id : Text)
      → d ≢ c
      → pending_of c command_id (change d f h) ≡ pending_of c command_id h
  unfolding change pending_of
  pending_of-change_other c command_id other = elim (Option-cases (get_elem? h.made d)) [
    | inl missing ↦ rw missing refl
    | inr (conn, found) ↦ rw found (pending_at-set_at_other c d command_id (f conn) h.made other)
  ]

  -- The pending commands of a connection that exists, after it was changed.
  pub pending_of-change_here :
      (command_id : Text) (conn : Conn)
      → get_elem? h.made d ≡ some conn
      → pending_of d command_id (change d f h) ≡ map_get command_id (f conn).pending
  unfolding change pending_of
  pending_of-change_here command_id conn found =
      rw (found, get_elem?-set_at d conn (f conn) h.made found) refl

  pending_of-change_missing :
      (c : ℕ) (command_id : Text)
      → get_elem? h.made d ≡ none
      → pending_of c command_id (change d f h) ≡ pending_of c command_id h
  unfolding change pending_of
  pending_of-change_missing c command_id missing = rw missing refl

  -- A change that keeps the pending commands of its connection keeps those of all.
  pub pending_of-change_same :
      ((conn : Conn) → (f conn).pending ≡ conn.pending)
      → (c : ℕ) (command_id : Text)
      → pending_of c command_id (change d f h) ≡ pending_of c command_id h
  pending_of-change_same same c command_id = elim (Bool-cases (d == c)) [
    | inr there ↦ pending_of-change_other c command_id (differ d c there)
    | inl here ↦ elim (Option-cases (get_elem? h.made d)) [
      | inl missing ↦ pending_of-change_missing c command_id missing
      | inr (conn, found) ↦
          subst (λ (i : ℕ). pending_of i command_id (change d f h) ≡ pending_of i command_id h)
            ((==_iff d c).0 here)
            (pending_of-change_here command_id conn found
              ∙ rw (same conn) (sym (pending_of_found d command_id h conn found)))
    ]
  ]

  pub change-All :
      (P : Conn → Type 0)
      → ((conn : Conn) → get_elem? h.made d ≡ some conn → P (f conn))
      → All P h.made
      → All P (change d f h).made
  unfolding change
  change-All P keeps all = elim (Option-cases (get_elem? h.made d)) [
    | inl missing ↦ rw missing all
    | inr (conn, found) ↦ rw found (All-set_at P d (f conn) h.made (keeps conn found) all)
  ]

added_here :
    (c d : ℕ) (i j : Text) (p q : PendingCommand) (h : Hub) (conn : Conn)
    → d ≡ c
    → get_elem? h.made d ≡ some conn
    → pending_of c i (add_pending d j p h) ≡ some q
    → ((c ≡ d) × (i ≡ j) × (q ≡ p)) ⊎ (pending_of c i h ≡ some q)
unfolding add_pending
added_here c d i j p q h conn here found e =
    let after : pending_of d i (add_pending d j p h) ≡ map_get i (map_put j p conn.pending) =
      pending_of-change_here _ d h i conn found in
    let e_d : pending_of d i (add_pending d j p h) ≡ some q =
      subst (λ (k : ℕ). pending_of k i (add_pending d j p h) ≡ some q) (sym here) e in
    elim (Bool-cases (text_eq i j)) [
      | inl same ↦
          let i_j = (text_eq_iff i j).0 same in
          inl (
            sym here,
            i_j,
            some_inj q p (
                sym e_d
                ∙ after
                ∙ subst (λ (k : Text). map_get k (map_put j p conn.pending) ≡ some p) (sym i_j)
                    (map_get-put j p conn.pending)),
          )
      | inr other ↦ inr (
          subst (λ (k : ℕ). pending_of k i h ≡ some q) here
            (pending_of_found d i h conn found
              ∙ sym (map_get-put_other i j p conn.pending (apart i j other))
              ∙ sym after
              ∙ e_d))
    ]

-- A command that is pending after one was added is the added one, or was pending before.
pub pending_of-add_pending :
    (c d : ℕ) (i j : Text) (p q : PendingCommand) (h : Hub)
    → pending_of c i (add_pending d j p h) ≡ some q
    → ((c ≡ d) × (i ≡ j) × (q ≡ p)) ⊎ (pending_of c i h ≡ some q)
unfolding add_pending
pending_of-add_pending c d i j p q h e = elim (Bool-cases (d == c)) [
  | inr there ↦ inr (sym (pending_of-change_other _ d h c i (differ d c there)) ∙ e)
  | inl here ↦ elim (Option-cases (get_elem? h.made d)) [
    | inl missing ↦ inr (sym (pending_of-change_missing _ d h c i missing) ∙ e)
    | inr (conn, found) ↦ added_here c d i j p q h conn ((==_iff d c).0 here) found e
  ]
]

nothing_missing :
    (c d : ℕ) (i : Text) (q : PendingCommand) (h : Hub)
    → d ≡ c
    → get_elem? h.made d ≡ none
    → pending_of c i h ≡ some q
    → ⊥
unfolding pending_of
nothing_missing c d i q h here missing e = none-some q (
    subst (λ (o : Option Conn). pending_at o i ≡ some q) missing
      (subst (λ (k : ℕ). pending_at (get_elem? h.made k) i ≡ some q) (sym here) e))

deleted_here :
    (c d : ℕ) (i j : Text) (q : PendingCommand) (h : Hub) (conn : Conn)
    → d ≡ c
    → get_elem? h.made d ≡ some conn
    → pending_of c i (delete_pending d j h) ≡ some q
    → (pending_of c i h ≡ some q) × ¬ ((c ≡ d) × (i ≡ j))
unfolding delete_pending
deleted_here c d i j q h conn here found e =
    let after : pending_of d i (delete_pending d j h) ≡ map_get i (map_delete j conn.pending) =
      pending_of-change_here _ d h i conn found in
    let kept : map_get i (map_delete j conn.pending) ≡ some q =
      sym after ∙ subst (λ (k : ℕ). pending_of k i (delete_pending d j h) ≡ some q) (sym here) e in
    let other : i ≢ j = λ i_j. none-some q (
      sym (map_get-delete j conn.pending)
      ∙ subst (λ (k : Text). map_get k (map_delete j conn.pending) ≡ some q) i_j kept) in
    (
      subst (λ (k : ℕ). pending_of k i h ≡ some q) here
          (pending_of_found d i h conn found
            ∙ sym (map_get-delete_other i j conn.pending other)
            ∙ kept),
      λ same. other same.1,
    )

-- A command that is pending after one was deleted is another one that was pending before.
pub pending_of-delete_pending :
    (c d : ℕ) (i j : Text) (q : PendingCommand) (h : Hub)
    → pending_of c i (delete_pending d j h) ≡ some q
    → (pending_of c i h ≡ some q) × ¬ ((c ≡ d) × (i ≡ j))
unfolding delete_pending
pending_of-delete_pending c d i j q h e = elim (Bool-cases (d == c)) [
  | inr there ↦ (
    sym (pending_of-change_other _ d h c i (differ d c there)) ∙ e,
    λ same. differ d c there (sym same.0),
  )
  | inl here ↦ elim (Option-cases (get_elem? h.made d)) [
    | inl missing ↦ absurd (
        nothing_missing c d i q h ((==_iff d c).0 here) missing
          (sym (pending_of-change_missing _ d h c i missing) ∙ e))
    | inr (conn, found) ↦ deleted_here c d i j q h conn ((==_iff d c).0 here) found e
  ]
]
