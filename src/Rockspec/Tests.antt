-- ===== src/Rockspec/Tests.antt =====
-- Runs of rockspec over the concrete numbers of `Scaled`.
use go_luarocks.Deps.Version.{
  parse_version, parse_trimmed, match_revision, parse_body, parse_tokens, match_digits, compare,
  with_placeholder, put_number, bare_version,
}
use go_luarocks.Prelude.{
  trim_space, atoi, Result, same, ◌≡◌, ◌↔◌, refl, true, false, none, some, [], ◌∷◌, ℤ, codes, ok,
  err, Bytes, List, Map, lookup, get_elem?, if◌then◌else◌, ltb,
}
use go_luarocks.Types.{Rockspec, Module, SourceFields, BuildFields}
use go_luarocks.Deps.Scaled.{scaled}
use go_luarocks.Rockspec.Platforms.{merge_dep_list, merge_list, merge_modules, merge_platforms}
use go_luarocks.Rockspec.Platforms.Merge.{
  get_elem?-merge_dep_list, merge_list-merge_dep_list, lookup-merge_modules,
  merge_platforms_idempotent, IsMergedEntry,
}
use go_luarocks.Rockspec.Validate.{
  matches_version, is_allowed_build_type, format_at_least, format_exceeds, validate,
  validate_presence, validate_fields, validate_build, SpecError,
}
use go_luarocks.Rockspec.Validate.Accepts.{
  IsRockVersion, matches_version_iff, IsAccepted, validate-ok_iff,
}

abbrev linux : Bytes
linux = codes "linux"

abbrev empty_source : SourceFields
empty_source = record {
  url = codes "git://host/a";
  tag = [];
  branch = [];
  md5 = [];
  file = [];
  dir = [];
  module_name = [];
  identifier = [];
}

abbrev core : Module
core = record {
  path = codes "a.c";
  sources = [];
  incdirs = [];
  libdirs = [];
  libraries = codes "m" ∷ [];
  defines = [];
}

abbrev with_defines : Module
with_defines = record core { path = []; defines = codes "D" ∷ []; libraries = codes "pthread" ∷ [] }

abbrev build_of : Bytes → Map Module → BuildFields
build_of t modules = record {
  type = t;
  modules = modules;
  install = record { lua = []; lib = []; bin = []; conf = [] };
  copy_directories = [];
  variables = [];
  makefile = [];
  build_target = [];
  build_variables = [];
  install_target = [];
  install_variables = [];
  build_pass = none;
  install_pass = none;
  build_command = [];
  install_command = [];
}

abbrev sample : Rockspec ℤ
sample = record {
  package_name = codes "a";
  version = codes "1.0-1";
  rockspec_format = codes "1.0";
  description = record {
    summary = [];
    detailed = [];
    license = [];
    homepage = [];
    issues_url = [];
    maintainer = [];
    labels = [];
  };
  supported_platforms = [];
  dependencies = [];
  build_dependencies = [];
  external_dependencies = [];
  test_dependencies = [];
  source = record { fields = empty_source; platforms = [] };
  build = record {
    fields = build_of (codes "builtin") ((codes "a", core) ∷ []);
    platforms = (linux, build_of [] ((codes "a", with_defines) ∷ [])) ∷ [];
  };
  deploy = record { wrap_bin_scripts = none };
  has_build = true;
  raw_source = [];
  dependencies_platforms = [];
  build_dependencies_platforms = [];
  test_dependencies_platforms = [];
  external_dependencies_platforms = [];
}

abbrev three : List Bytes
three = codes "a" ∷ codes "b" ∷ codes "d" ∷ []

abbrev one : List Bytes
one = codes "c" ∷ []

get_elem?-merge_dep_list_example :
    get_elem? (merge_dep_list three one) 1
    ≡ (if ltb 1 1 then get_elem? one 1 else get_elem? three 1)
get_elem?-merge_dep_list_example = get_elem?-merge_dep_list three one 1

merge_list-merge_dep_list_example : merge_list three one ≡ merge_dep_list three one
merge_list-merge_dep_list_example = merge_list-merge_dep_list three one

lookup-merge_modules_example :
    IsMergedEntry
      (some core)
      (some with_defines)
      (lookup linux (merge_modules ((linux, core) ∷ []) ((linux, with_defines) ∷ [])))
unfolding lookup same
lookup-merge_modules_example =
    lookup-merge_modules linux ((linux, core) ∷ []) ((linux, with_defines) ∷ []) (refl, tt)

merge_platforms_idempotent_example :
    merge_platforms (merge_platforms sample (linux ∷ [])) (linux ∷ linux ∷ [])
    ≡ merge_platforms sample (linux ∷ [])
merge_platforms_idempotent_example =
    merge_platforms_idempotent sample (linux ∷ []) (linux ∷ linux ∷ [])

matches_version_iff_example :
    (matches_version (codes "1.0-1") ≡ true) ↔ IsRockVersion (codes "1.0-1")
matches_version_iff_example = matches_version_iff (codes "1.0-1")

validate-ok_iff_example : (validate scaled (some sample) ≡ ok tt) ↔ IsAccepted scaled sample
validate-ok_iff_example = validate-ok_iff scaled sample

-- Validate with all that it calls.
checked : Rockspec ℤ → Result SpecError (Unit {0})
unfolding validate validate_presence validate_fields validate_build matches_version
    is_allowed_build_type format_at_least format_exceeds parse_version trim_space parse_trimmed
    match_revision parse_body parse_tokens match_digits atoi compare with_placeholder put_number
    bare_version same
checked spec = validate scaled (some spec)

validates : checked sample ≡ ok tt
unfolding checked
validates = refl

rejects :
    checked (record sample { deploy = record { wrap_bin_scripts = some false } })
    ≡ err SpecError.unsupported_deploy
unfolding checked
rejects = refl
