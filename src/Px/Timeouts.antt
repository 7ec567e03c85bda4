-- ===== src/Px/Timeouts.antt =====
-- pkg/cluster/px/px.go: `getDaemonSetReadyTimeout`.
use talisman.Common.{ℕ, suc, ◌+◌, ◌-◌, ◌*◌, ◌%◌, ◌^◌, ◌<◌, ◌≤◌, ◌≡◌, ◌∙◌, ap, length, arith}
use talisman.Go.Results.{Action, pure, ◌>>=◌}
use talisman.K8sutils.Instance.{second}
use talisman.Px.Ops.{PxClusterOps}

-- A `time.Duration` and an `int` are 64-bit integers, here by their value modulo 2 ^ 64, so that a
-- value from 2 ^ 63 on stands for a negative one.
abbrev pub times : ℕ → ℕ → ℕ
times a b = a * b % 2 ^ 64

-- `time.Duration(len(nodes.Items)-1) * time.Duration(timeoutPerNode) * time.Second`
unfoldable pub ready_timeout : ℕ → ℕ → ℕ
ready_timeout nodes timeout_per_node =
    times (times ((nodes + (2 ^ 64 - 1)) % 2 ^ 64) timeout_per_node) second

-- `getDaemonSetReadyTimeout`
unfoldable pub get_daemon_set_ready_timeout : {W : Type 0} → PxClusterOps W → ℕ → Action W ℕ
unfolding ready_timeout
get_daemon_set_ready_timeout ops timeout_per_node = do
  nodes ← ops.core_ops.get_nodes
  pure (ready_timeout (length nodes) timeout_per_node)

mod_small : (p : ℕ) → p < 2 ^ 64 → p % 2 ^ 64 ≡ p
mod_small p h = omega arith

-- For up to 2 ^ 63 nodes, and at least one, while the time for all of them but one is below 2 ^ 63
-- nanoseconds, that time is the timeout, exactly.
pub ready_timeout-exact :
    (nodes timeout_per_node : ℕ)
    → nodes < 2 ^ 63
    → nodes * timeout_per_node * second < 2 ^ 63
    → ready_timeout (suc nodes) timeout_per_node ≡ nodes * timeout_per_node * second
unfolding ready_timeout
ready_timeout-exact nodes timeout_per_node few fits =
    ap (λ n. times (times n timeout_per_node) second) all_but_one
    ∙ ap (λ p. times p second) (mod_small (nodes * timeout_per_node) below)
    ∙ mod_small (nodes * timeout_per_node * second) (omega arith)
  where
    all_but_one : (suc nodes + (2 ^ 64 - 1)) % 2 ^ 64 ≡ nodes
    all_but_one = omega arith

    below : nodes * timeout_per_node < 2 ^ 64
    below = omega arith

-- In a cluster without nodes the timeout is minus the time for one node, as the 64-bit number that it
-- wraps around to. The time for a node is at least a second, and below 2 ^ 63 nanoseconds.
pub ready_timeout-no_nodes :
    (timeout_per_node : ℕ)
    → 1 ≤ timeout_per_node
    → timeout_per_node * second < 2 ^ 63
    → ready_timeout 0 timeout_per_node + timeout_per_node * second ≡ 2 ^ 64
unfolding ready_timeout
ready_timeout-no_nodes timeout_per_node some_time fits = omega arith
