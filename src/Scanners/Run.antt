-- ===== src/Scanners/Run.antt =====
-- One run of a scanner: `assert_static_ref` of base.py and `run` of trivy.py and of grype.py. What the
-- subprocess does is a value: it cannot be started, it is killed after its time, it exits with a code,
-- its output, and the time that it took, or the task is cancelled while it runs. The decoder of JSON, the wording of the command line for
-- the operator, `str.lower` and `str.splitlines` are parameters. A run that raises is `raised`, with
-- the exception as text; one that ends with `CancelledError`, which is no `Exception`, is `stopped`.
use rotsy.Base.{
  ℕ, Bool, true, not, ◌||◌, Option, none, some, List, [], ◌∷◌, ◌++◌, Text, text, decimal, Dict,
  starts_with, any, if◌then◌else◌, ◌==◌,
}
use rotsy.Registries.{DockerRegistry, is_plaintext}
use rotsy.Scanners.Replicas.{
  Copying, Disk, Pool, slot_given, error_raised, task_cancelled, checkout_replica, checkin_replica,
  has_java_db,
}
use rotsy.Scanners.Output.{
  Parsed, undecodable, parsed, unexpected, parse_json_report, tail, first_error_line,
}
use rotsy.Scanners.Outcome.{ScanOutcome, failed_outcome, or_default}

-- `_RUNTIME_SCHEMES`
abbrev pub runtime_schemes : List Text
runtime_schemes =
    text "docker:"
    ∷ text "podman:"
    ∷ text "containerd:"
    ∷ text "docker-archive:"
    ∷ text "oci-archive:"
    ∷ text "oci-dir:"
    ∷ text "singularity:"
    ∷ text "dir:"
    ∷ text "file:"
    ∷ text "sbom:"
    ∷ []

-- Whether `assert_static_ref` lets a reference pass.
unfoldable pub is_static_ref : (Text → Text) → Text → Bool
is_static_ref lower image_ref =
    not (any (λ scheme. starts_with scheme (lower image_ref)) runtime_schemes)

pub record Credentials : Type 0 where
  pub username : Text
  pub password : Text

pub data Exec : Type 0 where
  not_started : Text → Exec
  expired : Text → ℕ → Exec
  exited : ℕ → Text → Text → ℕ → Exec
  cut_off : Exec

-- A coroutine that returns or raises.
pub data Ran (A : Type 0) : Type 0 where
  returned : A → Ran A
  raised : Text → Ran A
  stopped : Ran A

-- How the output of a run is read, and how its command line is rendered.
pub record Reading : Type 0 where
  pub loads : Text → Parsed
  pub lower : Text → Text
  pub splitlines : Text → List Text
  pub command_line : List Text → Text

-- `stderr or stdout`
abbrev pub or_other : Text → Text → Text
or_other [] stdout = stdout
or_other (c ∷ s) stdout = c ∷ s

module _ (reading : Reading) where
  abbrev pub detail_of : List Text → ℕ → Text → Text → Text
  detail_of args code stdout stderr =
      text "$ "
      ++ (reading.command_line args
          ++ (text "\nexit "
              ++ (decimal code ++ (text "\n" ++ tail 2000 (or_other stderr stdout)))))

  -- What a run makes of a report that is there.
  abbrev pub outcome_of_report : Text → Text → ℕ → Parsed → Ran ScanOutcome
  outcome_of_report scanner detail elapsed (undecodable why) = returned (
      failed_outcome scanner
        (text "could not parse " ++ (scanner ++ (text " JSON output: " ++ why))) detail elapsed)
  outcome_of_report scanner detail elapsed (unexpected why) = raised why
  outcome_of_report scanner detail elapsed (parsed findings) = returned (record {
    scanner = scanner;
    ok = true;
    vulnerabilities = findings;
    error = [];
    detail = detail;
    duration_ms = elapsed;
  })

  -- What a run makes of the subprocess.
  unfoldable pub outcome_of : Text → List Text → Exec → Ran ScanOutcome
  outcome_of scanner args (not_started why) = raised why
  outcome_of scanner args cut_off = stopped
  outcome_of scanner args (expired why elapsed) =
      returned (failed_outcome scanner why (reading.command_line args) elapsed)
  outcome_of scanner args (exited code stdout stderr elapsed) =
      let detail = detail_of args code stdout stderr in
      if not (code == 0)
      then returned (
          failed_outcome scanner
            (or_default (scanner ++ (text " exited " ++ decimal code))
              (first_error_line reading.lower reading.splitlines stderr))
            detail elapsed)
      else outcome_of_report scanner detail elapsed (parse_json_report reading.loads stdout)

abbrev pub insecure : DockerRegistry → Bool → Bool
insecure registry verify_tls = is_plaintext registry || not verify_tls

-- The command line of Trivy, with the cache directory of its replica, whether the Java database is
-- there, and the repositories of it.
unfoldable pub trivy_args :
    Text → Text → Bool → Text → Text → DockerRegistry → Text → Bool → List Text
trivy_args binary cache_dir has_java java_image java_fallback registry image_ref verify_tls =
    (binary
      ∷ text "image"
      ∷ text "--quiet"
      ∷ text "--format"
      ∷ text "json"
      ∷ text "--scanners"
      ∷ text "vuln"
      ∷ text "--image-src"
      ∷ text "remote"
      ∷ text "--skip-db-update"
      ∷ text "--cache-dir"
      ∷ cache_dir
      ∷ text "--timeout"
      ∷ text "8m"
      ∷ [])
    ++ ((if has_java
          then text "--skip-java-db-update" ∷ []
          else text "--java-db-repository"
            ∷ java_image
            ∷ text "--java-db-repository"
            ∷ java_fallback
            ∷ [])
        ++ ((if insecure registry verify_tls then text "--insecure" ∷ [] else [])
            ++ (image_ref ∷ [])))

unfoldable pub trivy_env : Credentials → DockerRegistry → Dict Text Text
trivy_env creds registry =
    (text "TRIVY_USERNAME", creds.username)
    ∷ (text "TRIVY_PASSWORD", creds.password)
    ∷ (if is_plaintext registry
        then (text "TRIVY_INSECURE", text "true") ∷ (text "TRIVY_NON_SSL", text "true") ∷ []
        else [])

unfoldable pub grype_args : Text → Text → List Text
grype_args binary image_ref =
    binary ∷ (text "registry:" ++ image_ref) ∷ text "-o" ∷ text "json" ∷ []

unfoldable pub grype_env : Credentials → DockerRegistry → Bool → Dict Text Text
grype_env creds registry verify_tls =
    (text "GRYPE_REGISTRY_AUTH_USERNAME", creds.username)
    ∷ (text "GRYPE_REGISTRY_AUTH_PASSWORD", creds.password)
    ∷ (text "GRYPE_DEFAULT_IMAGE_PULL_SOURCE", text "registry")
    ∷ (text "GRYPE_DB_AUTO_UPDATE", text "false")
    ∷ (text "GRYPE_DB_VALIDATE_AGE", text "false")
    ∷ (text "GRYPE_CHECK_FOR_APP_UPDATE", text "false")
    ∷ ((if is_plaintext registry
          then (text "GRYPE_REGISTRY_INSECURE_USE_HTTP", text "true") ∷ []
          else [])
        ++ (if insecure registry verify_tls
            then (text "GRYPE_REGISTRY_INSECURE_SKIP_TLS_VERIFY", text "true") ∷ []
            else []))

abbrev pub not_installed : Text → ScanOutcome
not_installed scanner =
    failed_outcome scanner (scanner ++ text " binary not installed in this image") [] 0

-- The outcome of a reference that passes; another raises.
abbrev pub if_static : {A : Type 0} → Bool → Ran A → Ran A
if_static static result = if static then result else raised (text "ValueError")

module _ (lower : Text → Text) (reading : Reading) (exec : List Text → Dict Text Text → Exec)
    (binary : Option Text) (registry : DockerRegistry) (image_ref : Text) (creds : Credentials)
    (verify_tls : Bool) where
  abbrev grype_outcome : Text → Ran ScanOutcome
  grype_outcome path =
      let args = grype_args path image_ref in
      outcome_of reading (text "grype") args (exec args (grype_env creds registry verify_tls))

  -- `run` of grype.py
  unfoldable pub run_grype : Ran ScanOutcome
  unfolding is_static_ref
  run_grype = elim binary [
    | none ↦ returned (not_installed (text "grype"))
    | some path ↦ if_static (is_static_ref lower image_ref) (grype_outcome path)
  ]

  module _ (java_image java_fallback : Text) (cache_dir : ℕ → Text) where
    -- The scan with a replica that is checked out, whose Java database may be there.
    unfoldable pub trivy_outcome : Text → ℕ → Bool → Ran ScanOutcome
    trivy_outcome path slot has_java =
        let args =
          trivy_args path (cache_dir slot) has_java java_image java_fallback registry image_ref
            verify_tls in
        outcome_of reading (text "trivy") args (exec args (trivy_env creds registry))

    -- `run` of trivy.py: `none` while it waits for a replica.
    unfoldable pub run_trivy : Copying → Disk → Pool → Option (Ran ScanOutcome × (Disk × Pool))
    unfolding is_static_ref
    run_trivy copying disk pool = elim binary [
      | none ↦ some (returned (not_installed (text "trivy")), (disk, pool))
      | some path ↦
          if is_static_ref lower image_ref
          then elim (checkout_replica copying disk pool) [
            | none ↦ none
            | some (error_raised, after) ↦ some (raised (text "OSError"), after)
            | some (task_cancelled, after) ↦ some (stopped, after)
            | some (slot_given slot, (after, left)) ↦ some (
              trivy_outcome path slot (has_java_db slot after),
              (after, checkin_replica slot left),
            )
          ]
          else some (raised (text "ValueError"), (disk, pool))
    ]
