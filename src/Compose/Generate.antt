-- ===== src/Compose/Generate.antt =====
-- crates/domain/src/compose.rs: `generate`.
use compose_nest.Common.{
  ◌+◌, ◌-◌, ◌*◌, ◌%◌, ◌^◌, ℤ, pos, negsuc, String, Option, none, some, [], ok, err, ltb,
  if◌then◌else◌, Text, text_codes, true, Map, insert,
}
use compose_nest.Identity.{compose_project_name, hex}
use compose_nest.Template.{Value, entries, optional, field, Checked, refused, ◌>>=◌, ◌>>◌}
use compose_nest.Compose.{
  Version, ConfirmedCompose, ComposeError, missing_version, ComposeModel, decimal, find_version,
  check_image,
}
use compose_nest.Compose.Inputs.{
  keys_of, check_keys, check_inputs, string_in, integer_in, resolve_argv, environment_of,
  command_of,
}
use compose_nest.Compose.Allocations.{Paths, ports_of, storage_of}

-- An integer of 64 bits, wrapped around as in a release build.
abbrev pub wrapped : ℤ → ℤ
wrapped (pos n) = let m = n % 2 ^ 64 in if ltb m (2 ^ 63) then pos m else negsuc (2 ^ 64 - 1 - m)
wrapped (negsuc n) = let m = n % 2 ^ 64 in if ltb m (2 ^ 63) then negsuc m else pos (2 ^ 64 - 1 - m)

abbrev pub bytes_of_mib : ℤ → ℤ
bytes_of_mib (pos n) = wrapped (pos (n * 1048576))
bytes_of_mib (negsuc n) = wrapped (negsuc (n * 1048576 + 1048575))

abbrev pub timing_of : Value → ℤ × ℤ × ℤ × ℤ
timing_of health = (
  integer_in (optional health "intervalSeconds") (pos 5),
  integer_in (optional health "timeoutSeconds") (pos 3),
  integer_in (optional health "startPeriodSeconds") (pos 10),
  integer_in (optional health "retries") (pos 12),
)

abbrev pub labels_of : ConfirmedCompose → Map Text
labels_of source = insert "io.composenest.spec-revision" (decimal source.spec_revision) (
    insert "io.composenest.instance" (hex 32 source.instance_id.value)
      (insert "io.composenest.scope" (text_codes source.scope_id) []))

abbrev pub restart_of : Option Value → Checked ComposeError String
restart_of none = ok "no"
restart_of (some node) = string_in node

abbrev pub mem_limit_of : Option Value → Option ℤ
mem_limit_of none = none
mem_limit_of (some node) = some (bytes_of_mib (integer_in (some node) (pos 0)))

abbrev pub found_version : Option Version → Checked ComposeError Version
found_version none = err (refused missing_version)
found_version (some version) = ok version

module _ (paths : Paths) where
  -- `generate` once the image was checked, on the document of the version.
  unfoldable pub generate_from : ConfirmedCompose → Value → Checked ComposeError ComposeModel
  unfolding check_inputs environment_of command_of check_keys ports_of storage_of
  generate_from source doc = do
    check_inputs (entries (optional doc "inputs")) source.inputs
    service ← field doc "service"
    environment ← environment_of (entries (optional service "environment")) source.inputs []
    command ← command_of (optional service "command") source.inputs
    health ← field service "healthcheck"
    test ← field health "command"
    healthcheck ← resolve_argv test source.inputs
    check_keys (keys_of source.ports) (keys_of (entries (optional service "ports"))) true
    ports ← ports_of (entries (optional service "ports")) source.ports []
    check_keys (keys_of source.storage) (keys_of (entries (optional service "storage"))) true
    (mounts, volumes) ←
        storage_of paths source.instance_id (entries (optional service "storage")) source.storage []
    restart ← restart_of (optional service "restart")
    ok (record {
      name = compose_project_name source.instance_id;
      service = record {
        image = source.execution_image;
        platform = source.platform;
        environment = environment;
        command = command;
        healthcheck = healthcheck;
        health_timing = timing_of health;
        ports = ports;
        mounts = mounts;
        restart = restart;
        mem_limit = mem_limit_of (optional service "memoryLimitMiB");
        labels = labels_of source;
      };
      volumes = volumes;
    })

  unfoldable pub generate : ConfirmedCompose → Checked ComposeError ComposeModel
  unfolding check_image generate_from
  generate source = do
    version ← found_version (find_version source.version source.snapshot)
    check_image source version
    generate_from source version.definition.document
