-- ===== src/Incus/Guests.antt =====
-- internal/incusclient/client.go: the power of a container, its log, and its counters.
use goincus.Base.{
  ℕ, zero, suc, ◌-◌, String, ◌<>◌, Bool, true, false, ◌||◌, List, [], ◌∷◌, ◌==◌, String-Eq, ltb,
  length, if◌then◌else◌,
}
use Prim.Native.String.{len}
use goincus.Base.Text.{trim_space, equal_fold, has_infix}
use goincus.Base.Split.{split_on, join, drop_chars}
use goincus.Base.Result.{
  Result, Error, ok, err, message, failure, not_found, invalid_input, conflict,
}
use goincus.System.{pure, fail, ◌>>=◌, ◌>>◌, ignore, attempt, within}
use goincus.Incus.Daemon.{Daemon, Request, request}

-- `fmt.Errorf("%w" + text, err)`
abbrev pub suffixed : String → Error → Error
suffixed text not_found = not_found
suffixed text (invalid_input m) = invalid_input (m <> text)
suffixed text (conflict m) = conflict (m <> text)
suffixed text (failure m) = failure (m <> text)

drop_lines : ℕ → List String → List String
drop_lines zero ls = ls
drop_lines (suc n) [] = []
drop_lines (suc n) (l ∷ ls) = drop_lines n ls

-- The part of `InstanceLogSnippet` after the log is read, without the 64 KiB cap of the read: at most
-- 20 lines and 1500 characters, the last ones (bytes in the source; Incus logs are ASCII). No line has a newline after the split.
unfoldable pub log_snippet : String → String
unfolding drop_lines drop_chars
log_snippet text =
    let lines = split_on b'\n' (trim_space text) in
    let out = join " | " (drop_lines (length lines - 20) lines) in
    if ltb 1500 (len out) then "..." <> drop_chars (len out - 1500) out else out

-- `IsolationError`
unfoldable pub isolation_error : Error → Error
isolation_error e =
    if has_infix "idmap" (message e)
      || has_infix "newuidmap" (message e)
      || has_infix "subuid" (message e)
    then suffixed
        " (ensure /etc/subuid and /etc/subgid give root a large range, e.g. root:1000000:1000000000)"
        e
    else e

module _ (D : Daemon) where
  -- `InstanceLogSnippet` and `logSuffix`
  unfoldable pub log_suffix : String → Request D String
  unfolding log_snippet
  log_suffix name = do
    log ← attempt (request D (D.get_instance_log name "lxc.log"))
    pure (elim log [
      | err _ ↦ ""
      | ok text ↦ if log_snippet text == "" then "" else "; lxc.log: " <> log_snippet text
    ])

  -- An error gets the end of the guest's log.
  with_log : String → Result (Unit {0}) → Request D (Unit {0})
  unfolding log_suffix
  with_log name (ok _) = pure tt
  with_log name (err e) = do text ← log_suffix name; fail (suffixed text e)

  -- `updateState`
  unfoldable pub update_state : (name action : String) → Request D (Unit {0})
  update_state name action = do
    op ← within (action <> " instance") (request D (D.update_instance_state name action 120 false))
    within ("wait " <> (action <> " instance")) (request D (D.wait op))

  -- `StartContainer`
  unfoldable pub start_container : String → Request D (Unit {0})
  unfolding with_log update_state
  start_container name = do with_log name (← attempt (update_state name "start"))

  -- `RestartContainer`
  unfoldable pub restart_container : String → Request D (Unit {0})
  unfolding with_log update_state
  restart_container name = do with_log name (← attempt (update_state name "restart"))

  -- `StopContainer`: only the wait's error gets the log.
  unfoldable pub stop_container : String → Bool → Request D (Unit {0})
  unfolding with_log
  stop_container name force = do
    op ← within "stop instance" (request D (D.update_instance_state name "stop" 30 force))
    with_log name (← attempt (within "wait stop instance" (request D (D.wait op))))

  -- `DeleteContainer`
  unfoldable pub delete_container : String → Request D (Unit {0})
  unfolding stop_container
  delete_container name = do
    found ← attempt (request D (D.get_instance name))
    elim found [
      | ok (inst, _) ↦ if inst.is_running then ignore (stop_container name true) else pure tt
      | err _ ↦ pure tt
    ]
    op ← within "delete instance" (request D (D.delete_instance name))
    request D (D.wait op)

  -- `GetStatus`
  abbrev pub get_status : String → Request D String
  get_status name = do (inst, _) ← request D (D.get_instance name); pure inst.status

  -- `IsRunning`
  unfoldable pub is_running : String → Request D Bool
  is_running name = do
    status ← attempt (get_status name)
    pure (elim status [ ok text ↦ equal_fold text "Running" | err _ ↦ false ])

  -- `ensureBridgeNetfilter`: the files and settings are written whatever becomes of them, only the
  -- loading of the module counts.
  unfoldable pub ensure_bridge_netfilter : Request D (Unit {0})
  ensure_bridge_netfilter = do
    ignore
        (request D (D.write_file "/etc/modules-load.d/goincus-br-netfilter.conf" "br_netfilter\n"))
    within "modprobe br_netfilter" (request D (D.run_command ("modprobe" ∷ "br_netfilter" ∷ [])))
    ignore
        (request D (D.run_command ("sysctl" ∷ "-w" ∷ "net.bridge.bridge-nf-call-iptables=1" ∷ [])))
    ignore
        (request D (D.run_command ("sysctl" ∷ "-w" ∷ "net.bridge.bridge-nf-call-ip6tables=1" ∷ [])))
    ignore
        (request D (D.run_command ("sysctl" ∷ "-w" ∷ "net.bridge.bridge-nf-call-arptables=1" ∷ [])))
    ignore (request D (D.write_file "/etc/sysctl.d/99-goincus-br-netfilter.conf" bridge_sysctl))
    pure tt
    where
      bridge_sysctl : String
      bridge_sysctl =
          "# Managed by goincus — required for Incus security.ipv4/ipv6_filtering\nnet.bridge.bridge-nf-call-iptables = 1\nnet.bridge.bridge-nf-call-ip6tables = 1\nnet.bridge.bridge-nf-call-arptables = 1\n"

  -- The second attempt of `EnsureStarted`, after the first one's error.
  retry_start : String → Error → Request D (Unit {0})
  unfolding start_container is_running ensure_bridge_netfilter isolation_error
  retry_start name e = do
    ignore ensure_bridge_netfilter
    retry ← attempt (start_container name)
    elim retry [
      | ok _ ↦ pure tt
      | err second ↦ do
        running ← is_running name
        if running
            then pure tt
            else fail (
                isolation_error
                  (suffixed (" (loaded br_netfilter and retried: " <> (message second <> ")")) e))
    ]

  after_failed_start : String → Error → Request D (Unit {0})
  unfolding is_running retry_start isolation_error
  after_failed_start name e = do
    running ← is_running name
    if running
        then pure tt
        else if has_infix "br_netfilter" (message e) || has_infix "bridge netfilter" (message e)
        then retry_start name e
        else fail (isolation_error e)

  -- `EnsureStarted`
  unfoldable pub ensure_started : String → Request D (Unit {0})
  unfolding start_container is_running after_failed_start
  ensure_started name = do
    running ← is_running name
    if running then pure tt else do
      started ← attempt (start_container name)
      elim started [ ok _ ↦ pure tt | err e ↦ after_failed_start name e ]
