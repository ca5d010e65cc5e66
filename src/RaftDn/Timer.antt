-- ===== src/RaftDn/Timer.antt =====
-- The timer of src/node/raft_dn.cpp, by which the leader of the datanodes watches the namenodes.
use thesis_dfs.Prelude.{
  map, ◌⊎◌, append_assoc, append-nil, sym, ℕ, zero, suc, ◌+◌, ◌*◌, ◌≤◌, ◌<◌, ◌≡◌, refl, ap, ◌∙◌,
  Text, Bool, true, false, List, [], ◌∷◌, ◌++◌, Option, none, some, if◌then◌else◌, leb, length,
  arith, Bool-cases, inl, inr, All, subst,
}
use thesis_dfs.Node
use thesis_dfs.Node.{Node, online, offline, to_string, NodeStatus}
use thesis_dfs.RaftDn.{scan}

-- All namenodes answered, or the timer ends with the address of one that did not.
pub data Watch : Type 0 where
  all_scanned : List Node → Watch
  timeout : Text → Watch

is_offline : NodeStatus → Bool
is_offline online = false
is_offline offline = true
is_offline Node.unknown = false

-- The rest of a round: a node that is offline ends the timer after three retries.
turn : Bool → ℕ → Text → Option Watch → Option Watch → Option Watch
turn false retry_count ip again next = next
turn true retry_count ip again next = if leb 3 retry_count then some (timeout ip) else again

turn-next :
    {b : Bool} (k : ℕ) (ip : Text) (again next : Option Watch)
    → b ≡ false
    → turn b k ip again next ≡ next
unfolding turn
turn-next k ip again next e = rw e refl

turn-timeout :
    {b : Bool} (k : ℕ) (ip : Text) (again next : Option Watch)
    → b ≡ true
    → leb 3 k ≡ true
    → turn b k ip again next ≡ some (timeout ip)
unfolding turn
turn-timeout k ip again next e h = rw (e, h) refl

turn-again :
    {b : Bool} (k : ℕ) (ip : Text) (again next : Option Watch)
    → b ≡ true
    → leb 3 k ≡ false
    → turn b k ip again next ≡ again
unfolding turn
turn-again k ip again next e h = rw (e, h) refl

-- `echo t address`: whether the common service there answers the t-th scan.
module _ (echo : ℕ → Text → Bool) (nn_port expected_nn : ℕ) where
  -- The loop over the namenodes from the i-th, with those in front, the retries of this node so far, and
  -- fuel; `none` when that runs out.
  unfoldable pub watch : ℕ → List Node → List Node → ℕ → ℕ → Option Watch
  unfolding is_offline turn
  watch zero scanned namenodes retry_count t = none
  watch (suc fuel) scanned [] retry_count t = some (all_scanned scanned)
  watch (suc fuel) scanned (n ∷ namenodes) retry_count t =
      let n' = scan (echo t) n in
      let again = watch fuel scanned (n' ∷ namenodes) (suc retry_count) (suc t) in
      let next = watch fuel (scanned ++ n' ∷ []) namenodes 0 (suc t) in
      turn (is_offline n'.node_status) retry_count n'.ip again next

  -- Scans of an address that failed, back from a time.
  abbrev pub AllFailed : Text → ℕ → ℕ → Type 0
  AllFailed address zero t = Unit {0}
  AllFailed address (suc count) zero = ⊥
  AllFailed address (suc count) (suc t) = (echo t address ≡ false) × AllFailed address count t

  -- A scan of the node was answered, at a time or later.
  abbrev pub Answered : ℕ → Node → Type 0
  Answered start n = (t : ℕ) × (start ≤ t) × (echo t (to_string n) ≡ true)

  -- Four scans of the node in a row failed, the first of them at a time or later.
  abbrev pub Lost : ℕ → Node → Type 0
  Lost start n = (t : ℕ) × (start + 4 ≤ t) × AllFailed (to_string n) 4 t

  -- The first of the nodes that did not answer has the address, and was lost.
  abbrev pub IsFirstLost : ℕ → List Node → Text → Type 0
  IsFirstLost start [] ip = ⊥
  IsFirstLost start (n ∷ namenodes) ip =
      ((n.ip ≡ ip) × Lost start n) ⊎ (Answered start n × IsFirstLost start namenodes ip)

  -- The node as an answered scan leaves it.
  unfoldable pub seen : Node → Node
  seen n = record n { node_status = online }

  -- What the end of the loop says of the namenodes, with those that were listed before: each of them
  -- answered, and they are listed as online; or one was lost, and those in front of it answered.
  abbrev pub IsRight : ℕ → List Node → List Node → Watch → Type 0
  IsRight start scanned namenodes (all_scanned ns) =
      All (Answered start) namenodes × (ns ≡ scanned ++ map seen namenodes)
  IsRight start scanned namenodes (timeout ip) = IsFirstLost start namenodes ip

  -- The retries so far are failed scans of the node that is next.
  abbrev IsRetried : ℕ → List Node → ℕ → ℕ → Type 0
  IsRetried start [] retry_count t = retry_count ≡ 0
  IsRetried start (n ∷ namenodes) retry_count t =
      AllFailed (to_string n) retry_count t × (retry_count ≤ 3) × (start + retry_count ≤ t)

  new_turn : (start : ℕ) (namenodes : List Node) (t : ℕ) → start ≤ t → IsRetried start namenodes 0 t
  new_turn start [] t h = refl
  new_turn start (n ∷ namenodes) t h = (tt, omega arith, omega (arith, h))

  -- A node that answers is listed, and the loop goes on behind it.
  IsRight-next :
      (start t : ℕ) (scanned : List Node) (n : Node) (namenodes : List Node) (r : Watch)
      → start ≤ t
      → echo t (to_string n) ≡ true
      → IsRight start (scanned ++ seen n ∷ []) namenodes r
      → IsRight start scanned (n ∷ namenodes) r
  IsRight-next start t scanned n namenodes (all_scanned ns) h e right =
      (((t, h, e), right.0), right.1 ∙ append_assoc scanned (seen n ∷ []) (map seen namenodes))
  IsRight-next start t scanned n namenodes (timeout ip) h e right = inr ((t, h, e), right)

  -- A scan changes neither the address nor what an answer leaves.
  IsRight-again :
      (start t : ℕ) (scanned : List Node) (n : Node) (namenodes : List Node) (r : Watch)
      → IsRight start scanned (scan (echo t) n ∷ namenodes) r
      → IsRight start scanned (n ∷ namenodes) r
  unfolding scan to_string seen
  IsRight-again start t scanned n namenodes (all_scanned ns) right = right
  IsRight-again start t scanned n namenodes (timeout ip) right = right

  answered : (n : Node) (t : ℕ) → echo t (to_string n) ≡ true → scan (echo t) n ≡ seen n
  unfolding scan seen
  answered n t e = rw e refl

  unanswered :
      (n : Node) (t : ℕ)
      → echo t (to_string n) ≡ false
      → is_offline (scan (echo t) n).node_status ≡ true
  unfolding scan is_offline
  unanswered n t e = rw e refl

  three : (retry_count : ℕ) → leb 3 retry_count ≡ true → retry_count ≤ 3 → retry_count ≡ 3
  three retry_count e h = ground (arith, e, h)

  watch-IsRight_from :
      (start fuel : ℕ) (scanned namenodes : List Node) (retry_count t : ℕ)
      → start ≤ t
      → IsRetried start namenodes retry_count t
      → 4 * length namenodes < fuel + retry_count
      → (r : Watch) × (watch fuel scanned namenodes retry_count t ≡ some r)
        × IsRight start scanned namenodes r
  unfolding watch scan is_offline to_string seen
  watch-IsRight_from start zero scanned [] retry_count t late retried h =
      absurd (omega (arith, retried, h))
  watch-IsRight_from start zero scanned (n ∷ namenodes) retry_count t late retried h =
      absurd (omega (arith, retried.1, h))
  watch-IsRight_from start (suc fuel) scanned [] retry_count t late retried h =
      (all_scanned scanned, refl, (tt, sym (append-nil scanned)))
  watch-IsRight_from start (suc fuel) scanned (n ∷ namenodes) retry_count t late retried h =
      elim (Bool-cases (echo t (to_string n))) [
        | inl answers ↦
            let (r, e, right) =
              watch-IsRight_from start fuel (scanned ++ scan (echo t) n ∷ []) namenodes 0 (suc t)
                (omega (arith, late)) (new_turn start namenodes (suc t) (omega (arith, late)))
                (omega (arith, retried.1, h)) in
            (
              r,
              turn-next _ _ _ _ (ap (λ m. is_offline m.node_status) (answered n t answers)) ∙ e,
              IsRight-next start t scanned n namenodes r late answers (
                  subst (λ m. IsRight start (scanned ++ m ∷ []) namenodes r) (answered n t answers)
                    right),
            )
        | inr fails ↦ elim (Bool-cases (leb 3 retry_count)) [
          | inl last ↦ (
            timeout n.ip,
            turn-timeout _ _ _ _ (unanswered n t fails) last,
            inl (
              refl,
              (
                suc t,
                ground (arith, last, retried.2),
                (
                  fails,
                  subst (λ k. AllFailed (to_string n) k t) (three retry_count last retried.1)
                      retried.0,
                ),
              ),
            ),
          )
          | inr more ↦
              let (r, e, right) =
                watch-IsRight_from start fuel scanned (scan (echo t) n ∷ namenodes)
                  (suc retry_count) (suc t) (omega (arith, late))
                  ((fails, retried.0), ground (arith, more, retried.1), omega (arith, retried.2))
                  (omega (arith, h)) in
              (
                r,
                turn-again _ _ _ _ (unanswered n t fails) more ∙ e,
                IsRight-again start t scanned n namenodes r right,
              )
        ]
      ]

  -- With fuel for four scans of each namenode the loop ends. Either all namenodes answered a scan since
  -- its start, and they are listed in their order as online; or the loop gives the address of a namenode
  -- that did not answer four scans in a row, and each namenode in front of that one answered a scan.
  pub watch-IsRight :
      (fuel : ℕ) (namenodes : List Node) (t : ℕ)
      → 4 * length namenodes < fuel
      → (r : Watch) × (watch fuel [] namenodes 0 t ≡ some r) × IsRight t [] namenodes r
  watch-IsRight fuel namenodes t h =
      watch-IsRight_from t fuel [] namenodes 0 t (omega arith)
        (new_turn t namenodes t (omega arith)) (omega (arith, h))
