-- ===== src/Jobs/Keys.antt =====
-- The Redis keys of shared/job_queue.py, and the equality tests between them.
use Prim.Native.String.{◌++◌}
use text.Mathlib.TextLemmas.{append_assoc}
use simple_claude_code_githu.Prelude.{String, ◌≡◌, ◌≢◌, refl, sym, ◌∙◌, false, str_eq, eq_refl}
use simple_claude_code_githu.Prelude.Text.{
  clash, clash-str_eq, str_eq_prefix, str_eq_suffix, str_ne,
}

unfoldable pub data_key : String → String
data_key job_id = "agent:job:data:" ++ job_id

unfoldable pub status_key : String → String
status_key job_id = "agent:job:status:" ++ job_id

pub result_key : String → String
result_key job_id = "agent:job:result:" ++ job_id

unfoldable pub backup_key : String → String
unfolding data_key
backup_key job_id = data_key job_id ++ ":backup"

unfoldable pub started_key : String → String
unfolding status_key
started_key job_id = status_key job_id ++ ":ts"

abbrev pub pending_queue : String
pending_queue = "agent:jobs:pending"

abbrev pub processing_set : String
processing_set = "agent:jobs:processing"

abbrev pub dead_letter_queue : String
dead_letter_queue = "agent:jobs:dead_letter"

-- No job identifier ends like the name of a derived key.
pub record IsJobId (job_id : String) : Type 0 where
  pub no_backup : (s : String) → job_id ≢ s ++ ":backup"
  pub no_started : (s : String) → job_id ≢ s ++ ":ts"

module _ (i j : String) where
  pub data_key_self : str_eq (data_key i) (data_key j) ≡ str_eq i j
  unfolding data_key
  data_key_self = str_eq_prefix "agent:job:data:" i j

  pub data-status : str_eq (data_key i) (status_key j) ≡ false
  unfolding data_key status_key clash
  data-status = clash-str_eq "agent:job:data:" "agent:job:status:" i j refl

  pub data-result : str_eq (data_key i) (result_key j) ≡ false
  unfolding data_key result_key clash
  data-result = clash-str_eq "agent:job:data:" "agent:job:result:" i j refl

  pub data-started : str_eq (data_key i) (started_key j) ≡ false
  unfolding data_key started_key clash
  data-started =
      rw (append_assoc "agent:job:status:" j ":ts")
        (clash-str_eq "agent:job:data:" "agent:job:status:" i (j ++ ":ts") refl)

  pub status-data : str_eq (status_key i) (data_key j) ≡ false
  unfolding status_key data_key clash
  status-data = clash-str_eq "agent:job:status:" "agent:job:data:" i j refl

  pub status_key_self : str_eq (status_key i) (status_key j) ≡ str_eq i j
  unfolding status_key
  status_key_self = str_eq_prefix "agent:job:status:" i j

  pub status-result : str_eq (status_key i) (result_key j) ≡ false
  unfolding status_key result_key clash
  status-result = clash-str_eq "agent:job:status:" "agent:job:result:" i j refl

  pub status-backup : str_eq (status_key i) (backup_key j) ≡ false
  unfolding status_key backup_key clash
  status-backup =
      rw (append_assoc "agent:job:data:" j ":backup")
        (clash-str_eq "agent:job:status:" "agent:job:data:" i (j ++ ":backup") refl)

  pub result-data : str_eq (result_key i) (data_key j) ≡ false
  unfolding result_key data_key clash
  result-data = clash-str_eq "agent:job:result:" "agent:job:data:" i j refl

  pub result-status : str_eq (result_key i) (status_key j) ≡ false
  unfolding result_key status_key clash
  result-status = clash-str_eq "agent:job:result:" "agent:job:status:" i j refl

  pub result_key_self : str_eq (result_key i) (result_key j) ≡ str_eq i j
  unfolding result_key
  result_key_self = str_eq_prefix "agent:job:result:" i j

  pub result-backup : str_eq (result_key i) (backup_key j) ≡ false
  unfolding result_key backup_key clash
  result-backup =
      rw (append_assoc "agent:job:data:" j ":backup")
        (clash-str_eq "agent:job:result:" "agent:job:data:" i (j ++ ":backup") refl)

  pub result-started : str_eq (result_key i) (started_key j) ≡ false
  unfolding result_key started_key clash
  result-started =
      rw (append_assoc "agent:job:status:" j ":ts")
        (clash-str_eq "agent:job:result:" "agent:job:status:" i (j ++ ":ts") refl)

  pub backup-status : str_eq (backup_key i) (status_key j) ≡ false
  unfolding backup_key status_key clash
  backup-status =
      rw (append_assoc "agent:job:data:" i ":backup")
        (clash-str_eq "agent:job:data:" "agent:job:status:" (i ++ ":backup") j refl)

  pub backup-result : str_eq (backup_key i) (result_key j) ≡ false
  unfolding backup_key result_key clash
  backup-result =
      rw (append_assoc "agent:job:data:" i ":backup")
        (clash-str_eq "agent:job:data:" "agent:job:result:" (i ++ ":backup") j refl)

  pub backup_key_self : str_eq (backup_key i) (backup_key j) ≡ str_eq i j
  unfolding backup_key
  backup_key_self = str_eq_suffix ":backup" _ _ ∙ str_eq_prefix "agent:job:data:" i j

  pub backup-started : str_eq (backup_key i) (started_key j) ≡ false
  unfolding backup_key started_key clash
  backup-started =
      rw (append_assoc "agent:job:data:" i ":backup", append_assoc "agent:job:status:" j ":ts")
        (clash-str_eq "agent:job:data:" "agent:job:status:" (i ++ ":backup") (j ++ ":ts") refl)

  pub started-data : str_eq (started_key i) (data_key j) ≡ false
  unfolding started_key data_key clash
  started-data =
      rw (append_assoc "agent:job:status:" i ":ts")
        (clash-str_eq "agent:job:status:" "agent:job:data:" (i ++ ":ts") j refl)

  pub started-result : str_eq (started_key i) (result_key j) ≡ false
  unfolding started_key result_key clash
  started-result =
      rw (append_assoc "agent:job:status:" i ":ts")
        (clash-str_eq "agent:job:status:" "agent:job:result:" (i ++ ":ts") j refl)

  pub started-backup : str_eq (started_key i) (backup_key j) ≡ false
  unfolding started_key backup_key clash
  started-backup =
      rw (append_assoc "agent:job:status:" i ":ts", append_assoc "agent:job:data:" j ":backup")
        (clash-str_eq "agent:job:status:" "agent:job:data:" (i ++ ":ts") (j ++ ":backup") refl)

  pub started_key_self : str_eq (started_key i) (started_key j) ≡ str_eq i j
  unfolding started_key
  started_key_self = str_eq_suffix ":ts" _ _ ∙ str_eq_prefix "agent:job:status:" i j

pub data-backup : (i j : String) → IsJobId i → str_eq (data_key i) (backup_key j) ≡ false
unfolding data_key backup_key
data-backup i j h =
    rw (append_assoc "agent:job:data:" j ":backup") (
      str_eq_prefix "agent:job:data:" i (j ++ ":backup")
      ∙ str_ne i (j ++ ":backup") (h.no_backup j))

pub backup-data : (i j : String) → IsJobId j → str_eq (backup_key i) (data_key j) ≡ false
unfolding data_key backup_key
backup-data i j h = rw (append_assoc "agent:job:data:" i ":backup") (
    str_eq_prefix "agent:job:data:" (i ++ ":backup") j
    ∙ str_ne (i ++ ":backup") j (λ e. h.no_backup i (sym e)))

pub started-status : (i j : String) → IsJobId j → str_eq (started_key i) (status_key j) ≡ false
unfolding status_key started_key
started-status i j h = rw (append_assoc "agent:job:status:" i ":ts") (
    str_eq_prefix "agent:job:status:" (i ++ ":ts") j
    ∙ str_ne (i ++ ":ts") j (λ e. h.no_started i (sym e)))

-- Keys of different kinds are different, and keys of one kind are those of their jobs.
pub ruleset key_laws = (
  data_key_self, data-status, data-result, data-started, status-data, status_key_self,
  status-result, status-backup, result-data, result-status, result_key_self, result-backup,
  result-started, backup-status, backup-result, backup_key_self, backup-started, started-data,
  started-result, started-backup, started_key_self, eq_refl,
)
