-- ===== src/Scanners/Tests.antt =====
-- Small reports and runs of the scanners, and the theorems at concrete ones.
use rotsy.Base.{
  ℕ, ◌+◌, ◌≤◌, ◌≡◌, refl, true, false, Option, none, some, List, [], ◌∷◌, Text, text, Dict, map,
  max, length, starts_with, decimal, join_with, ◌++◌,
}
use rotsy.Registries.{DockerRegistry, authority, image_ref, lstrip_slash}
use rotsy.Scanners.Outcome.{ScanOutcome, ScanReport, apply_outcome}
use rotsy.Scanners.Tallied.{IsTallied, apply_outcome-IsTallied}
use rotsy.Scanners.Reports.{
  absent, number, unreadable, not_a_dict, vendor_scores, TrivyEntry, GrypeMatch, best_of_vendors,
  trivy_cvss, trivy_finding, grype_finding, normalise_severity,
}
use rotsy.Scanners.Readiness.{
  Info, Readiness, answered, ask_grype, grype_db_usable, check_scanner, add_readiness, readiness,
}
use rotsy.Scanners.Replicas.{
  Copy, Disk, slots, replica_stale, write_replica, checkout_replica, copied, failed, cancelled,
  slot_given, error_raised, task_cancelled,
}
use rotsy.Scanners.Held.{Shop, Reaches, start, next, checkout, take_slot, times, Reaches-once}
use rotsy.Scanners.Output.{Parsed, parsed, from_brace}
use rotsy.Scanners.Restored.{IsRestored, run_trivy-IsRestored}
use rotsy.Scanners.Run.{
  returned, raised, is_static_ref, Exec, expired, Reading, Credentials, run_trivy,
}
use rotsy.Scanners.Persistence.{Db, Runner, new_report, run_one, columns_take, scan_image}
use rotsy.Scanners.Finished.{IsScanned, AreWritable, scan_image-IsScanned}

abbrev same : Text → Text
same t = t

abbrev entry : TrivyEntry
entry = record {
  vulnerability_id = some (text "CVE-1");
  cve = none;
  severity = none;
  pkg_name = some (text "openssl");
  installed_version = some (text "1.0");
  fixed_version = none;
  title = some [];
  description = some (text "overflow");
  cvss =
      some
        (vendor_scores (number 75) (number 91) ∷ not_a_dict ∷ vendor_scores unreadable absent ∷ []);
}

abbrev low_match : GrypeMatch
low_match = record {
  vulnerability_id = some (text "CVE-2");
  severity = some (text "NEGLIGIBLE");
  description = none;
  fix_versions = some (text "2.1" ∷ []);
  artifact_name = some (text "zlib");
  artifact_version = none;
  related_vulnerabilities =
      some (none ∷ some (record { base_score = absent; score = number 31 } ∷ []) ∷ []);
}

abbrev trivy_done : ScanOutcome
trivy_done = record {
  scanner = text "trivy";
  ok = true;
  vulnerabilities = trivy_finding same entry ∷ grype_finding same low_match ∷ [];
  error = [];
  detail = [];
  duration_ms = 12;
}

abbrev blank_report : ScanReport
blank_report = new_report 4 (text "hosted") (text "app:1") (text "trivy") (text "nexus:5000/app:1")

-- The second version of the score is taken although the third is there.
newest_score : trivy_cvss entry ≡ 91
unfolding trivy_cvss best_of_vendors
newest_score = refl

negligible_is_low : (grype_finding same low_match).severity ≡ text "LOW"
unfolding grype_finding normalise_severity
negligible_is_low = refl

apply_outcome-IsTallied_example :
    IsTallied
      (length trivy_done.vulnerabilities)
      (apply_outcome same 90 blank_report trivy_done (text "hosted"))
apply_outcome-IsTallied_example =
    apply_outcome-IsTallied same 90 blank_report trivy_done (text "hosted")

abbrev old_copy : Copy
old_copy = record { db = some 10; java = none }

abbrev disk : Disk
disk = record {
  canonical = record { db = some 20; java = some 15 };
  has_java_dir = true;
  replicas = λ slot. old_copy;
}

-- What a copy that fails leaves of the database, written later than the database was.
abbrev truncated : Copy
truncated = record { db = some 30; java = some 30 }

-- The next checkout of the slot hands the truncated copy out.
truncated_is_used :
    (checkout_replica (failed truncated) disk (0 ∷ [])
      ≡ some (error_raised, (write_replica 0 truncated disk, 0 ∷ [])))
    × (checkout_replica copied (write_replica 0 truncated disk) (0 ∷ [])
        ≡ some (slot_given 0, (write_replica 0 truncated disk, [])))
unfolding checkout_replica replica_stale write_replica
truncated_is_used = (refl, refl)

-- A scan that is cancelled while it copies to the only replica leaves none for any other scan.
cancelled_is_lost :
    (checkout_replica (cancelled old_copy) disk (0 ∷ [])
      ≡ some (task_cancelled, (write_replica 0 old_copy disk, [])))
    × (checkout_replica copied (write_replica 0 old_copy disk) [] ≡ none)
unfolding checkout_replica replica_stale write_replica
cancelled_is_lost = (refl, refl)

abbrev opened : Shop
opened = record { disk = disk; free = slots 2; held = []; lost = 0 }

abbrev one_lost : Shop
one_lost = take_slot (cancelled old_copy) (take_slot copied opened)

abbrev one_taken : Reaches 2 one_lost
one_taken =
    next (next (start disk) (checkout copied opened))
      (checkout (cancelled old_copy) (take_slot copied opened))

Reaches-once_example :
    (times 0 one_lost.held + times 0 one_lost.free ≤ 1)
    × (length one_lost.held + length one_lost.free + one_lost.lost ≡ max 1 2)
Reaches-once_example = Reaches-once 2 0 one_lost one_taken

abbrev plain : DockerRegistry
plain = record {
  repo = text "hosted";
  repo_type = text "hosted";
  host = text "nexus";
  port = 5000;
  scheme = text "http";
  source = text "repositorySettings";
}

-- A Nexus host of the name `docker` makes every reference one that is refused.
docker_host_is_refused :
    is_static_ref same (image_ref (record plain { host = text "docker" }) (text "app:1")) ≡ false
unfolding is_static_ref image_ref authority lstrip_slash starts_with
docker_host_is_refused = refl

abbrev trivy_runner : Runner (Unit {0})
trivy_runner w = (returned trivy_done, w)

abbrev grype_runner : Runner (Unit {0})
grype_runner w = (raised (text "OSError"), w)

abbrev all_ready : List Text → Dict Text Readiness
all_ready names = []

abbrev asked : List Text
asked = text "trivy" ∷ text "grype" ∷ text "clair" ∷ []

abbrev empty_db : Db
empty_db = record { reports = []; vulnerabilities = []; next_id = 1 }

nexus-IsStatic : is_static_ref same (image_ref plain (text "/app:1")) ≡ true
unfolding is_static_ref image_ref authority lstrip_slash starts_with
nexus-IsStatic = refl

runs-AreWritable :
    AreWritable same same (λ n. n) trivy_runner grype_runner plain (text "/app:1") [] asked
unfolding run_one columns_take image_ref authority lstrip_slash decimal
    rotsy.Scanners.Outcome.finding_to_row trivy_finding rotsy.Scanners.Outcome.row_severity
    rotsy.Scanners.Outcome.severity_from_cvss grype_finding
runs-AreWritable db w = (refl, (refl, (refl, tt)))

scan_image-IsScanned_example : IsScanned (map same asked) [] (
    scan_image same same
      (λ n. n)
      trivy_runner
      grype_runner
      plain
      (text "/app:1")
      all_ready
      asked
      empty_db
      tt)
scan_image-IsScanned_example =
    scan_image-IsScanned same same (λ n. n) trivy_runner grype_runner plain (text "/app:1")
      all_ready asked empty_db tt nexus-IsStatic runs-AreWritable

abbrev trivy_info : Text → Option Info
trivy_info name = some (record { installed = true; present = true; built = none; built_at = none })

-- A recent answer of Grype is used again.
cached_answer :
    (readiness same trivy_info
      (answered true [])
      100
      5
      (text "grype" ∷ [])
      (some (90, (false, text "old")))).1
    ≡ some (90, (false, text "old"))
unfolding readiness add_readiness check_scanner grype_db_usable ask_grype
cached_answer = refl

abbrev no_findings : Text → Parsed
no_findings document = parsed []

abbrev one_line : Text → List Text
one_line t = t ∷ []

abbrev spaced : List Text → Text
spaced args = join_with (text " ") args

abbrev reading : Reading
reading = record { loads = no_findings; lower = same; splitlines = one_line; command_line = spaced }

abbrev killed : List Text → Dict Text Text → Exec
killed args env = expired (text "scanner exceeded 600s") 600000

abbrev account : Credentials
account = record { username = text "scanner"; password = text "secret" }

abbrev replica_dir : ℕ → Text
replica_dir slot = text "replicas/" ++ decimal slot

run_trivy-IsRestored_example : IsRestored 1 copied disk (1 ∷ 0 ∷ []) (
    run_trivy same reading killed
      (some (text "/bin/trivy"))
      plain
      (text "nexus:5000/app:1")
      account
      false
      (text "java")
      (text "mirror")
      replica_dir
      copied
      disk
      (1 ∷ 0 ∷ []))
run_trivy-IsRestored_example =
    run_trivy-IsRestored same reading killed (some (text "/bin/trivy")) plain
      (text "nexus:5000/app:1") account false (text "java") (text "mirror") replica_dir disk 1
      copied (1 ∷ 0 ∷ [])

-- Log lines before the document are skipped.
document_is_found : from_brace (text "WARN insecure {}") ≡ some (text "{}")
unfolding from_brace
document_is_found = refl
