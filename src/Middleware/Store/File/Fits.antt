-- ===== src/Middleware/Store/File/Fits.antt =====
-- When the outbox is a queue, and what keeps it one.
use ygate_git.Base.{
  ℕ, ◌+◌, ◌≤◌, ◌<◌, sym, subst, ◌≡◌, refl, Bool, true, false, Bool-cases, inl, inr, [], ◌∷◌, ◌++◌,
  if◌then◌else◌, some_item, keep, map, arith,
}
use ygate_git.Base.Int.{ℤ, pos, ◌+ℤ◌, ◌≤ℤ◌, ◌<ℤ◌, max_int64, succ_int64}
use ygate_git.Base.Text.{Text, text_eq}
use ygate_git.Middleware.Store.File.{
  Store, FileState, Saves, Outcome, OutboxRow, commit, with_next_id,
}
use ygate_git.Middleware.Store.File.Outbox.{deliver_row, fail_row}
use ygate_git.Middleware.Store.File.Queue.{
  Ascending, DistinctKeys, Ascending-raise, Ascending-append, Ascending-keep, Ascending-map,
  DistinctKeys-map, DistinctKeys-keep, DistinctKeys-append,
}

-- Ids below the next one in ascending order, and distinct keys.
pub record IsQueue {F : Type 0} (s : FileState F) : Type 0 where
  pub ascending : Ascending (pos 0) s.outbox s.next_id
  pub distinct_keys : DistinctKeys s.outbox

-- A queue whose next id is at most `b`.
pub record Fits {F : Type 0} (b : ℕ) (s : FileState F) : Type 0 where
  pub queue : IsQueue s
  pub at_most : s.next_id ≤ℤ pos b

-- What a method returns leaves such a queue.
pub record Leaves {F A : Type 0} (b : ℕ) (x : Outcome F A) : Type 0 where
  pub fits : Fits b x.1.state

pub fail_row-id :
    (now http : ℤ) (msg : Text) (retry : Bool) (v : OutboxRow)
    → (fail_row now http msg retry v).id ≡ v.id
unfolding fail_row
fail_row-id now http msg true v = refl
fail_row-id now http msg false v = refl

pub fail_row-key :
    (now http : ℤ) (msg : Text) (retry : Bool) (v : OutboxRow)
    → (fail_row now http msg retry v).key ≡ v.key
unfolding fail_row
fail_row-key now http msg true v = refl
fail_row-key now http msg false v = refl

pub deliver_row-id :
    (now http : ℤ) (response : Text) (v : OutboxRow) → (deliver_row now http response v).id ≡ v.id
unfolding deliver_row
deliver_row-id now http response v = refl

pub deliver_row-key :
    (now http : ℤ) (response : Text) (v : OutboxRow) → (deliver_row now http response v).key ≡ v.key
unfolding deliver_row
deliver_row-key now http response v = refl

module _ {F : Type 0} where
  -- A state with the same outbox and the same next id.
  pub Fits-same :
      (b : ℕ) (s t : FileState F)
      → t.outbox ≡ s.outbox
      → t.next_id ≡ s.next_id
      → Fits b s
      → Fits b t
  Fits-same b s t outbox next h = record {
    queue = record {
      ascending = rw (outbox, next) h.queue.ascending;
      distinct_keys = rw outbox h.queue.distinct_keys;
    };
    at_most = rw next h.at_most;
  }

  pub Fits-raise : (b c : ℕ) (s : FileState F) → b ≤ c → Fits b s → Fits c s
  Fits-raise b c s le h = record { queue = h.queue; at_most = omega (arith, h.at_most) }

  pub Fits-next_id :
      (b : ℕ) (s : FileState F) → b < max_int64 → Fits b s → Fits (b + 1) (with_next_id s)
  unfolding ◌+ℤ◌
  Fits-next_id b s small h = record {
    queue = record {
      ascending =
          Ascending-raise (pos 0) s.next_id _ s.outbox (ground (arith, h.at_most))
            h.queue.ascending;
      distinct_keys = h.queue.distinct_keys;
    };
    at_most = ground (arith, h.at_most);
  }

  pub Leaves-commit :
      {A : Type 0} (b : ℕ) (saves : Saves F) (v : A) (s : Store F) (state : FileState F)
      → Fits b state
      → Leaves b (commit saves v s state)
  Leaves-commit b saves v s state h = elim (Bool-cases (saves state)) [
    | inl done ↦ record { fits = rw done h }
    | inr not_done ↦ record { fits = rw not_done h }
  ]

  pub Leaves-if :
      {A : Type 0} (b : ℕ) (c : Bool) (x y : Outcome F A)
      → Leaves b x
      → Leaves b y
      → Leaves b (if c then x else y)
  Leaves-if b true x y h k = h
  Leaves-if b false x y h k = k

  pub Fits-appended :
      (b : ℕ) (s : FileState F) (v : OutboxRow)
      → b < max_int64
      → v.id ≡ s.next_id
      → some_item (λ (w : OutboxRow). text_eq w.key v.key) s.outbox ≡ false
      → Fits b s
      → Fits (b + 1) (record (with_next_id s) { outbox = s.outbox ++ v ∷ [] })
  unfolding ◌+ℤ◌
  Fits-appended b s v small is_next absent h =
      let room : s.next_id <ℤ pos max_int64 = omega (arith, h.at_most) in
      let counted : succ_int64 s.next_id ≡ s.next_id +ℤ pos 1 = ground (arith, room) in
      record {
        queue = record {
          ascending =
              subst (Ascending (pos 0) (s.outbox ++ v ∷ [])) (sym counted)
                (Ascending-append (pos 0) s.next_id s.outbox v is_next h.queue.ascending);
          distinct_keys = DistinctKeys-append s.outbox v absent h.queue.distinct_keys;
        };
        at_most = ground (arith, h.at_most);
      }

  pub Fits-rows_map :
      (b : ℕ) (s : FileState F) (f : OutboxRow → OutboxRow)
      (same_id : (v : OutboxRow) → (f v).id ≡ v.id) (same_key : (v : OutboxRow) → (f v).key ≡ v.key)
      → Fits b s
      → Fits b (record s { outbox = map f s.outbox })
  Fits-rows_map b s f same_id same_key h = record {
    queue = record {
      ascending = Ascending-map f same_id same_key (pos 0) s.next_id s.outbox h.queue.ascending;
      distinct_keys = DistinctKeys-map f same_id same_key s.outbox h.queue.distinct_keys;
    };
    at_most = h.at_most;
  }

  pub Fits-rows_keep :
      (b : ℕ) (s : FileState F) (p : OutboxRow → Bool)
      → Fits b s
      → Fits b (record s { outbox = keep p s.outbox })
  Fits-rows_keep b s p h = record {
    queue = record {
      ascending = Ascending-keep p (pos 0) s.next_id s.outbox h.queue.ascending;
      distinct_keys = DistinctKeys-keep p s.outbox h.queue.distinct_keys;
    };
    at_most = h.at_most;
  }

  -- A method that takes an id or none, and keeps the outbox.
  pub Leaves-taken :
      {A : Type 0} (b : ℕ) (saves : Saves F) (v : A) (s : Store F) (t : FileState F)
      → b < max_int64
      → t.outbox ≡ s.state.outbox
      → t.next_id ≡ succ_int64 s.state.next_id
      → Fits b s.state
      → Leaves (b + 1) (commit saves v s t)
  Leaves-taken b saves v s t small outbox next h =
      Leaves-commit (b + 1) saves v s t
        (Fits-same (b + 1) (with_next_id s.state) t outbox next (Fits-next_id b s.state small h))

  pub Leaves-kept :
      {A : Type 0} (b : ℕ) (saves : Saves F) (v : A) (s : Store F) (t : FileState F)
      → t.outbox ≡ s.state.outbox
      → t.next_id ≡ s.state.next_id
      → Fits b s.state
      → Leaves (b + 1) (commit saves v s t)
  Leaves-kept b saves v s t outbox next h =
      Leaves-commit (b + 1) saves v s t
        (Fits-raise b (b + 1) t (omega arith) (Fits-same b s.state t outbox next h))
