-- ===== src/PathLocks.antt =====
-- src/common/pathlocks.cpp and include/common/pathlocks.h: a reader-writer lock for each key, of type `std::shared_mutex`.
pub mod Release
use thesis_dfs.Prelude.{
  ℕ, zero, suc, Text, text_eq, Bool, true, false, List, [], ◌∷◌, Option, none, some, if◌then◌else◌,
  ◌==◌,
}
use thesis_dfs.Result.{Result, ok, err, undefined}

-- The flag of the pair, and who holds the mutex.
pub record Lock : Type 0 where
  pub flag : Bool
  pub readers : ℕ
  pub writer : Bool

abbrev pub Locks : Type 0
Locks = List (Text × Lock)

-- `locks.find(key)`
unfoldable pub find_lock : Text → Locks → Option Lock
find_lock key [] = none
find_lock key ((k, l) ∷ locks) = if text_eq k key then some l else find_lock key locks

set_lock : Text → Lock → Locks → Locks
set_lock key l [] = []
set_lock key l ((k, old) ∷ locks) =
    let rest = set_lock key l locks in if text_eq k key then (k, l) ∷ locks else (k, old) ∷ rest

-- A missing key gets a free mutex, and the flag.
pub create : Bool → Text → Locks → Locks
create flag key locks = elim (find_lock key locks) [
  | some l ↦ locks
  | none ↦ (key, record { flag = flag; readers = 0; writer = false }) ∷ locks
]

-- `lock_shared` and `lock`; `none` if they wait.
lock_shared : Lock → Option Lock
lock_shared l = if l.writer then none else some (record l { readers = suc l.readers })

lock : Lock → Option Lock
lock l =
    if l.writer then none else if l.readers == 0 then some (record l { writer = true }) else none

-- To release what nobody holds is undefined.
unlock_shared : Lock → Result Lock
unlock_shared l = elim l.readers [ zero ↦ err undefined | suc n ↦ ok (record l { readers = n }) ]

unlock_writer : Lock → Result Lock
unlock_writer l = if l.writer then ok (record l { writer = false }) else err undefined

taken : Text → Locks → Option Lock → Option Locks
unfolding set_lock
taken key locks none = none
taken key locks (some l) = some (set_lock key l locks)

at : (Lock → Option Lock) → Option Lock → Option Lock
at f none = none
at f (some l) = f l

unfoldable pub read_lock : Text → Locks → Option Locks
unfolding create lock_shared taken at
read_lock key locks =
    let locks' = create false key locks in taken key locks' (at lock_shared (find_lock key locks'))

unfoldable pub write_lock : Text → Locks → Option Locks
unfolding create lock taken at
write_lock key locks =
    let locks' = create true key locks in taken key locks' (at lock (find_lock key locks'))

released : Text → Locks → Result Lock → Result Locks
unfolding set_lock
released key locks (err e) = err e
released key locks (ok l) = ok (set_lock key l locks)

-- A key that is not there is ignored.
unfoldable pub unlock : Text → Locks → Result Locks
unfolding unlock_shared unlock_writer released
unlock key locks = elim (find_lock key locks) [
  | none ↦ ok locks
  | some l ↦ released key locks (if l.flag then unlock_writer l else unlock_shared l)
]
