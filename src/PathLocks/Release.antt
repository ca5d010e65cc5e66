-- ===== src/PathLocks/Release.antt =====
-- Taking a lock and releasing it.
use thesis_dfs.PathLocks.{
  at, lock, unlock, Lock, find_lock, set_lock, Locks, released, create, read_lock, write_lock,
  unlock_writer, unlock_shared, taken, lock_shared,
}
use thesis_dfs.Prelude.{
  Text, Bool, true, false, [], ◌∷◌, some, if◌then◌else◌, ◌≡◌, refl, arith, ap, ◌∙◌, none,
  text_eq_refl, sym,
}
use thesis_dfs.Result.{Result, ok, err, undefined}

-- A mutex that nobody holds, with the flag.
abbrev pub free : Bool → Lock
free flag = record { flag = flag; readers = 0; writer = false }

find_lock-set_lock :
    (key : Text) (l old : Lock) (locks : Locks)
    → find_lock key locks ≡ some old
    → find_lock key (set_lock key l locks) ≡ some l
unfolding find_lock set_lock
find_lock-set_lock key l old [] e = cc
find_lock-set_lock key l old ((k, m) ∷ locks) e = ground (arith, find_lock-set_lock key l old locks)

set_lock-set_lock :
    (key : Text) (l m : Lock) (locks : Locks)
    → set_lock key l (set_lock key m locks) ≡ set_lock key l locks
unfolding set_lock
set_lock-set_lock key l m [] = refl
set_lock-set_lock key l m ((k, old) ∷ locks) = ground (arith, set_lock-set_lock key l m locks)

set_lock_same :
    (key : Text) (l : Lock) (locks : Locks)
    → find_lock key locks ≡ some l
    → set_lock key l locks ≡ locks
unfolding find_lock set_lock
set_lock_same key l [] e = cc
set_lock_same key l ((k, m) ∷ locks) e = ground (arith, set_lock_same key l locks)

-- Releasing what was taken: the state before it, if what is released is what is taken.
released-set_lock :
    (key : Text) (l m : Lock) (locks : Locks)
    → find_lock key locks ≡ some l
    → released key (set_lock key m locks) (ok l) ≡ ok locks
unfolding released
released-set_lock key l m locks e =
    ap ok (set_lock-set_lock key l m locks ∙ set_lock_same key l locks e)

unlock-found :
    (key : Text) (l m : Lock) (locks : Locks)
    → find_lock key locks ≡ some l
    → unlock key (set_lock key m locks)
      ≡ released key (set_lock key m locks) (if m.flag then unlock_writer m else unlock_shared m)
unfolding unlock
unlock-found key l m locks e = rw (find_lock-set_lock key m l locks e, unlock) refl

create-found :
    (flag : Bool) (key : Text) (l : Lock) (locks : Locks)
    → find_lock key locks ≡ some l
    → create flag key locks ≡ locks
unfolding create
create-found flag key l locks e = rw (e, create) refl

-- What `unlock` does after one successful lock of a free mutex, of either kind.
pub record IsReleased (key : Text) (locks : Locks) (right wrong : Result Locks) : Type 0 where
  pub reader : Locks
  pub read : read_lock key locks ≡ some reader
  pub after_read : unlock key reader ≡ right
  pub writer : Locks
  pub write : write_lock key locks ≡ some writer
  pub after_write : unlock key writer ≡ wrong

write_taken :
    (key : Text) (flag : Bool) (locks : Locks)
    → find_lock key locks ≡ some (free flag)
    → write_lock key locks ≡ some (set_lock key (record (free flag) { writer = true }) locks)
unfolding write_lock taken at lock
write_taken key flag locks e = rw (create-found true key (free flag) locks e, e) refl

read_taken :
    (key : Text) (flag : Bool) (locks : Locks)
    → find_lock key locks ≡ some (free flag)
    → read_lock key locks ≡ some (set_lock key (record (free flag) { readers = 1 }) locks)
unfolding read_lock taken at lock_shared
read_taken key flag locks e = rw (create-found false key (free flag) locks e, e) refl

-- A free mutex of a key that is in the map can be locked by a reader and by a writer. Its release
-- then gives back the state before, if the lock is of the kind that the flag of the key names,
-- true for a writer; for a lock of the other kind the release is undefined.
pub unlock-flag :
    (key : Text) (flag : Bool) (locks : Locks)
    → find_lock key locks ≡ some (free flag)
    → IsReleased key locks
        (if flag then err undefined else ok locks)
        (if flag then ok locks else err undefined)
unfolding unlock_writer unlock_shared released
unlock-flag key true locks e = record {
  reader = set_lock key (record (free true) { readers = 1 }) locks;
  read = read_taken key true locks e;
  after_read = unlock-found key (free true) (record (free true) { readers = 1 }) locks e;
  writer = set_lock key (record (free true) { writer = true }) locks;
  write = write_taken key true locks e;
  after_write =
      unlock-found key (free true) (record (free true) { writer = true }) locks e
      ∙ released-set_lock key (free true) (record (free true) { writer = true }) locks e;
}
unlock-flag key false locks e = record {
  reader = set_lock key (record (free false) { readers = 1 }) locks;
  read = read_taken key false locks e;
  after_read =
      unlock-found key (free false) (record (free false) { readers = 1 }) locks e
      ∙ released-set_lock key (free false) (record (free false) { readers = 1 }) locks e;
  writer = set_lock key (record (free false) { writer = true }) locks;
  write = write_taken key false locks e;
  after_write = unlock-found key (free false) (record (free false) { writer = true }) locks e;
}

find_lock-first :
    (key : Text) (l : Lock) (locks : Locks) → find_lock key ((key, l) ∷ locks) ≡ some l
unfolding find_lock
find_lock-first key l locks = rw (text_eq_refl key) refl

new_key :
    (key : Text) (locks : Locks)
    → find_lock key locks ≡ none
    → write_lock key locks ≡ write_lock key ((key, free true) ∷ locks)
unfolding write_lock
new_key key locks e =
    ap (λ ls. taken key ls (at lock (find_lock key ls)))
      (made
        ∙ sym (
            create-found true key (free true) ((key, free true) ∷ locks)
              (find_lock-first key (free true) locks)))
  where
    made : create true key locks ≡ (key, free true) ∷ locks
    made = unfold create in rw (e, create) refl

-- A writer's lock of a new key that is released twice.
pub write_lock-twice :
    (key : Text) (locks : Locks)
    → find_lock key locks ≡ none
    → (taken : Locks) × (write_lock key locks ≡ some taken)
      × (unlock key taken ≡ ok ((key, free true) ∷ locks))
      × (unlock key ((key, free true) ∷ locks) ≡ err undefined)
unfolding unlock unlock_writer released
write_lock-twice key locks e =
    let here = find_lock-first key (free true) locks in
    let r = unlock-flag key true ((key, free true) ∷ locks) here in
    (r.writer, new_key key locks e ∙ r.write, r.after_write, rw (here, unlock) refl)
