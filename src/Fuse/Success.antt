-- ===== src/Fuse/Success.antt =====
-- When a callback of src/client/fuse.cpp reports success to the kernel.
use thesis_dfs.Fuse.{Call, Client, silent, loud, after_reinit}
use thesis_dfs.Fuse
use thesis_dfs.Fuse.Callbacks.{
  finish, mkdir_result, rm_result, mkdir_code, rm_code, spkdfs_open, spkdfs_mkdir, spkdfs_rm,
  spkdfs_truncate, spkdfs_create, spkdfs_close, spkdfs_fsync, minus_enoent, minus_eio,
}
use thesis_dfs.Result.{
  common_exception, path_exists_exception, path_not_exists_exception, expected_file_exception,
  expected_dir_exception, expected_lock_conflict, redirect_to_master, out_of_range_exception,
  ErrorCode, Error, Result, ok, err, message, runtime, invalid_argument, out_of_range, aborted,
  undefined, runtime, path_exists_exception, ◌>>=◌, path_not_exists_exception,
  expected_file_exception, expected_dir_exception, expected_lock_conflict, redirect_to_master,
  out_of_range_exception,
}
use thesis_dfs.Prelude.Int.{ℤ, pos, negsuc}
use thesis_dfs.Prelude.{Text, ℕ, ◌≡◌, ◌↔◌, refl, ◌∙◌, ◌⊎◌, ◌≢◌, ap, inl, inr}

-- The exceptions after which there is a second try with a new client.
abbrev pub IsTriedAgain : Error → Type 0
IsTriedAgain (message code info) = ⊥
IsTriedAgain (runtime what) = Unit {0}
IsTriedAgain invalid_argument = Unit {0}
IsTriedAgain out_of_range = Unit {0}
IsTriedAgain aborted = ⊥
IsTriedAgain undefined = ⊥

-- The ways in which an operation of the client ends well: at once, or in the second try, after the
-- first one threw another exception than a `MessageException` and a new client was made.
pub data IsDone {World : Type 0} (reinit call : Call World (Unit {0})) (w w' : World) : Type 0 where
  at_once : call w ≡ (ok tt, w') → IsDone reinit call w w'
  second :
      (e : Error) (w₁ w₂ : World)
      → IsTriedAgain e
      → call w ≡ (err e, w₁)
      → reinit w₁ ≡ (ok tt, w₂)
      → call w₂ ≡ (ok tt, w')
      → IsDone reinit call w w'

-- The namenode refused the first try.
pub data IsRefused {World : Type 0} (call : Call World (Unit {0})) (w w' : World) : Type 0 where
  refused :
      (code : ErrorCode) (info : Text)
      → call w ≡ (err (message code info), w')
      → IsRefused call w w'

module _ {World : Type 0} (reinit call : Call World (Unit {0})) (w w' : World) where
  again :
      (x : Error) (w₁ : World) (q : Result (Unit {0}) × World)
      → IsTriedAgain x
      → call w ≡ (err x, w₁)
      → reinit w₁ ≡ q
      → after_reinit call q ≡ (ok tt, w')
      → IsDone reinit call w w'
  unfolding after_reinit
  again x w₁ (ok u, w₂) retried at made e = second x w₁ w₂ retried at made e
  again x w₁ (err y, w₂) retried at made e = cc

  loud-IsDone :
      (p : Result (Unit {0}) × World)
      → call w ≡ p
      → loud reinit call p ≡ (ok tt, w')
      → IsDone reinit call w w'
  unfolding loud
  loud-IsDone (ok u, w₁) at e = at_once (at ∙ e)
  loud-IsDone (err (message code info), w₁) at e = cc
  loud-IsDone (err (runtime what), w₁) at e = again (runtime what) w₁ (reinit w₁) tt at refl e
  loud-IsDone (err invalid_argument, w₁) at e = again invalid_argument w₁ (reinit w₁) tt at refl e
  loud-IsDone (err out_of_range, w₁) at e = again out_of_range w₁ (reinit w₁) tt at refl e
  loud-IsDone (err aborted, w₁) at e = cc
  loud-IsDone (err undefined, w₁) at e = cc

  IsDone-loud : IsDone reinit call w w' → loud reinit call (call w) ≡ (ok tt, w')
  unfolding loud after_reinit
  IsDone-loud (at_once at) = rw at refl
  IsDone-loud (second (message code info) w₁ w₂ never at made e) = absurd never
  IsDone-loud (second (runtime what) w₁ w₂ retried at made e) = rw (at, made, e) refl
  IsDone-loud (second invalid_argument w₁ w₂ retried at made e) = rw (at, made, e) refl
  IsDone-loud (second out_of_range w₁ w₂ retried at made e) = rw (at, made, e) refl
  IsDone-loud (second aborted w₁ w₂ never at made e) = absurd never
  IsDone-loud (second undefined w₁ w₂ never at made e) = absurd never

  silent-IsDone :
      (p : Result (Unit {0}) × World)
      → call w ≡ p
      → silent reinit call p ≡ (ok tt, w')
      → IsDone reinit call w w' ⊎ IsRefused call w w'
  unfolding silent
  silent-IsDone (ok u, w₁) at e = inl (at_once (at ∙ e))
  silent-IsDone (err (message code info), w₁) at e =
      inr (refused code info (at ∙ ap (λ v. (err (message code info), v)) (ap (λ r. r.1) e)))
  silent-IsDone (err (runtime what), w₁) at e = inl (loud-IsDone (err (runtime what), w₁) at e)
  silent-IsDone (err invalid_argument, w₁) at e = inl (loud-IsDone (err invalid_argument, w₁) at e)
  silent-IsDone (err out_of_range, w₁) at e = inl (loud-IsDone (err out_of_range, w₁) at e)
  silent-IsDone (err aborted, w₁) at e = inl (loud-IsDone (err aborted, w₁) at e)
  silent-IsDone (err undefined, w₁) at e = inl (loud-IsDone (err undefined, w₁) at e)

  IsDone-silent :
      IsDone reinit call w w' ⊎ IsRefused call w w' → silent reinit call (call w) ≡ (ok tt, w')
  unfolding silent loud after_reinit
  IsDone-silent (inl (at_once at)) = rw at refl
  IsDone-silent (inl (second (message code info) w₁ w₂ never at made e)) = absurd never
  IsDone-silent (inl (second (runtime what) w₁ w₂ retried at made e)) = rw (at, made, e) refl
  IsDone-silent (inl (second invalid_argument w₁ w₂ retried at made e)) = rw (at, made, e) refl
  IsDone-silent (inl (second out_of_range w₁ w₂ retried at made e)) = rw (at, made, e) refl
  IsDone-silent (inl (second aborted w₁ w₂ never at made e)) = absurd never
  IsDone-silent (inl (second undefined w₁ w₂ never at made e)) = absurd never
  IsDone-silent (inr (refused code info at)) = rw at refl

-- A result for the kernel that is made of the client's: a number for success, and another for any error.
record IsMade (make : Result (Unit {0}) → Result ℤ) : Type 0 where
  done : make (ok tt) ≡ ok (pos 0)
  failed : (e : Error) → make (err e) ≢ ok (pos 0)

made_iff :
    {World : Type 0} (make : Result (Unit {0}) → Result ℤ) (p : Result (Unit {0}) × World)
    (w' : World)
    → IsMade make
    → ◌≡◌ {A = Result ℤ × World} (make p.0, p.1) (ok (pos 0), w') ↔ (p ≡ (ok tt, w'))
made_iff make (ok u, w) w' h = (
  (λ e. ap (λ v. (ok tt, v)) (ap (λ r. r.1) e)),
  (λ e. ap (λ v. (make (ok tt), v)) (ap (λ r. r.1) e) ∙ ap (λ r. (r, w')) h.done),
)
made_iff make (err x, w) w' h = ((λ e. absurd (h.failed x (ap (λ r. r.0) e))), (λ e. cc))

finish-IsMade : (failed : ℕ) → IsMade (finish (pos 0) (negsuc failed))
unfolding finish
finish-IsMade failed = record { done = refl; failed = go }
  where
    go : (e : Error) → finish (pos 0) (negsuc failed) (err e) ≢ ok (pos 0)
    go (message code info) = λ q. cc
    go (runtime what) = λ q. cc
    go invalid_argument = λ q. cc
    go out_of_range = λ q. cc
    go aborted = λ q. cc
    go undefined = λ q. cc

mkdir_result-IsMade : IsMade mkdir_result
unfolding mkdir_result mkdir_code
mkdir_result-IsMade = record { done = refl; failed = go }
  where
    code_of : (code : ErrorCode) → ◌≢◌ {A = Result ℤ} (ok (mkdir_code code)) (ok (pos 0))
    code_of path_exists_exception = λ q. cc
    code_of path_not_exists_exception = λ q. cc
    code_of expected_file_exception = λ q. cc
    code_of expected_dir_exception = λ q. cc
    code_of expected_lock_conflict = λ q. cc
    code_of redirect_to_master = λ q. cc
    code_of out_of_range_exception = λ q. cc
    code_of common_exception = λ q. cc

    go : (e : Error) → mkdir_result (err e) ≢ ok (pos 0)
    go (message code info) = code_of code
    go (runtime what) = λ q. cc
    go invalid_argument = λ q. cc
    go out_of_range = λ q. cc
    go aborted = λ q. cc
    go undefined = λ q. cc

rm_result-IsMade : IsMade rm_result
unfolding rm_result rm_code
rm_result-IsMade = record { done = refl; failed = go }
  where
    code_of : (code : ErrorCode) (info : Text) → rm_code code info ≢ ok (pos 0)
    code_of path_exists_exception info = λ q. cc
    code_of path_not_exists_exception info = λ q. cc
    code_of expected_file_exception info = λ q. cc
    code_of expected_dir_exception info = λ q. cc
    code_of expected_lock_conflict info = λ q. cc
    code_of redirect_to_master info = λ q. cc
    code_of out_of_range_exception info = λ q. cc
    code_of common_exception info = λ q. cc

    go : (e : Error) → rm_result (err e) ≢ ok (pos 0)
    go (message code info) = code_of code info
    go (runtime what) = λ q. cc
    go invalid_argument = λ q. cc
    go out_of_range = λ q. cc
    go aborted = λ q. cc
    go undefined = λ q. cc

open-IsMade : IsMade (λ r. do done ← r; ok (pos 0))
open-IsMade = record { done = refl; failed = λ e q. cc }

-- When the kernel is told 0, with the client's world after it.
pub record IsTold {World : Type 0} (sdk : Client World) (path : Text) (size flags : ℕ)
    (w w' : World) : Type 0 where
  pub opened : (spkdfs_open sdk path flags w ≡ (ok (pos 0), w')) ↔ (
      IsDone sdk.reinit (sdk.open_file path flags) w w' ⊎ IsRefused (sdk.open_file path flags) w w')
  pub made :
      (spkdfs_mkdir sdk path w ≡ (ok (pos 0), w'))
      ↔ (IsDone sdk.reinit (sdk.mkdir path) w w' ⊎ IsRefused (sdk.mkdir path) w w')
  pub removed :
      (spkdfs_rm sdk path w ≡ (ok (pos 0), w'))
      ↔ (IsDone sdk.reinit (sdk.rm path) w w' ⊎ IsRefused (sdk.rm path) w w')
  pub truncated :
      (spkdfs_truncate sdk path size w ≡ (ok (pos 0), w'))
      ↔ (IsDone sdk.reinit (sdk.truncate path size) w w' ⊎ IsRefused (sdk.truncate path size) w w')
  pub created :
      (spkdfs_create sdk path w ≡ (ok (pos 0), w')) ↔ IsDone sdk.reinit (sdk.create path) w w'
  pub closed :
      (spkdfs_close sdk path w ≡ (ok (pos 0), w')) ↔ IsDone sdk.reinit (sdk.close path) w w'
  pub synced :
      (spkdfs_fsync sdk path w ≡ (ok (pos 0), w')) ↔ IsDone sdk.reinit (sdk.fsync path) w w'

module _ {World : Type 0} (make : Result (Unit {0}) → Result ℤ) (h : IsMade make)
    (reinit call : Call World (Unit {0})) (w w' : World) where
  silent-told :
      ◌≡◌ {A = Result ℤ × World}
        (make (silent reinit call (call w)).0, (silent reinit call (call w)).1)
        (ok (pos 0), w')
      ↔ (IsDone reinit call w w' ⊎ IsRefused call w w')
  silent-told =
      let (there, back) = made_iff make (silent reinit call (call w)) w' h in
      (
        (λ e. silent-IsDone reinit call w w' (call w) refl (there e)),
        (λ d. back (IsDone-silent reinit call w w' d)),
      )

  loud-told :
      ◌≡◌ {A = Result ℤ × World}
        (make (loud reinit call (call w)).0, (loud reinit call (call w)).1)
        (ok (pos 0), w')
      ↔ IsDone reinit call w w'
  loud-told =
      let (there, back) = made_iff make (loud reinit call (call w)) w' h in
      (
        (λ e. loud-IsDone reinit call w w' (call w) refl (there e)),
        (λ d. back (IsDone-loud reinit call w w' d)),
      )

-- Creating, closing and syncing are reported as a success to the kernel just where the client's
-- operation was done, at once or by the new client in the second try. Opening, making a directory,
-- removing and truncating are reported so there as well, and also wherever the namenode refused the
-- first try with a `MessageException`, whatever its code.
pub IsTold-success :
    {World : Type 0} (sdk : Client World) (path : Text) (size flags : ℕ) (w w' : World)
    → IsTold sdk path size flags w w'
unfolding spkdfs_open spkdfs_mkdir spkdfs_rm spkdfs_truncate spkdfs_create spkdfs_close spkdfs_fsync
    thesis_dfs.Fuse.open_file thesis_dfs.Fuse.mkdir thesis_dfs.Fuse.rm thesis_dfs.Fuse.truncate
    thesis_dfs.Fuse.create thesis_dfs.Fuse.close thesis_dfs.Fuse.fsync
IsTold-success sdk path size flags w w' = record {
  opened = silent-told _ open-IsMade sdk.reinit (sdk.open_file path flags) w w';
  made = silent-told mkdir_result mkdir_result-IsMade sdk.reinit (sdk.mkdir path) w w';
  removed = silent-told rm_result rm_result-IsMade sdk.reinit (sdk.rm path) w w';
  truncated =
      silent-told (finish (pos 0) minus_enoent) (finish-IsMade 1) sdk.reinit
        (sdk.truncate path size) w w';
  created =
      loud-told (finish (pos 0) minus_eio) (finish-IsMade 4) sdk.reinit (sdk.create path) w w';
  closed = loud-told (finish (pos 0) minus_eio) (finish-IsMade 4) sdk.reinit (sdk.close path) w w';
  synced = loud-told (finish (pos 0) minus_eio) (finish-IsMade 4) sdk.reinit (sdk.fsync path) w w';
}
