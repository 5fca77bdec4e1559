-- ===== src/Ssh/Connection/Frame.antt =====
-- `Connection.run` of ssh.py and the session registry.
use tai_mcp_ssh.Prelude.{Bool, true, false, Option, none, some, Text, refl, ℕ}
use tai_mcp_ssh.Process.{
  Env, Reply, finished, transport_dead, process_failed, other_failed, update_conn,
}
use tai_mcp_ssh.Process.Quiet.{
  Nowhere, Writes-same, Quiet, Quiet-bind, Quiet-throw, Quiet-pure, Quiet-gets, Quiet-ask,
  Quiet-modify,
}
use tai_mcp_ssh.Process.{Fault, status, lost, strange, SftpReply, fine, faulty}
use tai_mcp_ssh.Ssh.Connection.{
  raise_fault, check_reply, sftp_or_raise, sftp_if, start_sftp, call_ssh, reply_or_raise, mark_dead,
  run_if, run, home_or_raise, home_dir,
}

pub mark_dead-Quiet : (id : ℕ) → Quiet Nowhere (mark_dead id)
unfolding mark_dead update_conn
mark_dead-Quiet id = Quiet-modify _ (λ s. (refl, refl, refl)) (λ s. Writes-same refl refl)

call_ssh-Quiet :
    (env : Env) (id : ℕ) (command : Text) (check raw : Bool)
    → Quiet Nowhere (call_ssh env id command check raw)
unfolding call_ssh
call_ssh-Quiet env id command check raw =
    Quiet-bind _ _ (Quiet-modify _ (λ s. (refl, refl, refl)) (λ s. Writes-same refl refl))
      (λ _. Quiet-ask _)

reply_or_raise-Quiet : (id : ℕ) (r : Reply) → Quiet Nowhere (reply_or_raise id r)
unfolding reply_or_raise
reply_or_raise-Quiet id (finished c) = Quiet-pure c
reply_or_raise-Quiet id transport_dead =
    Quiet-bind _ _ (mark_dead-Quiet id) (λ _. Quiet-throw _ refl)
reply_or_raise-Quiet id process_failed = Quiet-throw _ refl
reply_or_raise-Quiet id other_failed = Quiet-throw _ refl

run_if-Quiet :
    (env : Env) (id : ℕ) (command : Text) (check raw dead : Bool)
    → Quiet Nowhere (run_if env id command check raw dead)
unfolding run_if
run_if-Quiet env id command check raw true = Quiet-throw _ refl
run_if-Quiet env id command check raw false =
    Quiet-bind _ _ (call_ssh-Quiet env id command check raw) (λ r. reply_or_raise-Quiet id r)

pub run-Quiet :
    (env : Env) (id : ℕ) (command : Text) (check raw : Bool)
    → Quiet Nowhere (run env id command check raw)
unfolding run
run-Quiet env id command check raw =
    Quiet-bind _ _ (Quiet-gets _) (λ dead. run_if-Quiet env id command check raw dead)

home_or_raise-Quiet : (home : Option Text) → Quiet Nowhere (home_or_raise home)
unfolding home_or_raise
home_or_raise-Quiet none = Quiet-throw _ refl
home_or_raise-Quiet (some home) = Quiet-pure home

pub home_dir-Quiet : (id : ℕ) → Quiet Nowhere (home_dir id)
unfolding home_dir
home_dir-Quiet id = Quiet-bind _ _ (Quiet-gets _) home_or_raise-Quiet

pub raise_fault-Quiet : {A : Type 0} (f : Fault) → Quiet Nowhere (raise_fault {A = A} f)
unfolding raise_fault
raise_fault-Quiet (status code) = Quiet-throw _ refl
raise_fault-Quiet lost = Quiet-throw _ refl
raise_fault-Quiet strange = Quiet-throw _ refl

pub check_reply-Quiet : (r : SftpReply) → Quiet Nowhere (check_reply r)
unfolding check_reply
check_reply-Quiet fine = Quiet-pure tt
check_reply-Quiet (faulty f) = raise_fault-Quiet f

sftp_or_raise-Quiet : (id : ℕ) (r : SftpReply) → Quiet Nowhere (sftp_or_raise id r)
unfolding sftp_or_raise
sftp_or_raise-Quiet id (faulty lost) = Quiet-bind _ _ (mark_dead-Quiet id) (λ _. Quiet-throw _ refl)
sftp_or_raise-Quiet id r = check_reply-Quiet r

sftp_if-Quiet : (env : Env) (id : ℕ) (dead : Bool) → Quiet Nowhere (sftp_if env id dead)
unfolding sftp_if
sftp_if-Quiet env id true = Quiet-throw _ refl
sftp_if-Quiet env id false = Quiet-bind _ _ (Quiet-ask _) (λ r. sftp_or_raise-Quiet id r)

pub start_sftp-Quiet : (env : Env) (id : ℕ) → Quiet Nowhere (start_sftp env id)
unfolding start_sftp
start_sftp-Quiet env id = Quiet-bind _ _ (Quiet-gets _) (λ dead. sftp_if-Quiet env id dead)
