-- ===== src/Samples.antt =====
-- Rocks for the tests of the other modules.
use go_luarocks.Prelude.{true, none, [], ℤ, Bytes, Map, codes}
use go_luarocks.Types.{Rockspec, Module, BuildFields}

abbrev pub build_with : Map Module → BuildFields
build_with modules = record {
  type = codes "builtin";
  modules = modules;
  install = record { lua = []; lib = []; bin = []; conf = [] };
  copy_directories = [];
  variables = [];
  makefile = [];
  build_target = [];
  build_variables = [];
  install_target = [];
  install_variables = [];
  build_pass = none;
  install_pass = none;
  build_command = [];
  install_command = [];
}

abbrev pub spec_of : Bytes → Bytes → Map Module → Rockspec ℤ
spec_of name version modules = record {
  package_name = name;
  version = version;
  rockspec_format = [];
  description = record {
    summary = [];
    detailed = [];
    license = [];
    homepage = [];
    issues_url = [];
    maintainer = [];
    labels = [];
  };
  supported_platforms = [];
  dependencies = [];
  build_dependencies = [];
  external_dependencies = [];
  test_dependencies = [];
  source = record {
    fields = record {
      url = [];
      tag = [];
      branch = [];
      md5 = [];
      file = [];
      dir = [];
      module_name = [];
      identifier = [];
    };
    platforms = [];
  };
  build = record { fields = build_with modules; platforms = [] };
  deploy = record { wrap_bin_scripts = none };
  has_build = true;
  raw_source = [];
  dependencies_platforms = [];
  build_dependencies_platforms = [];
  test_dependencies_platforms = [];
  external_dependencies_platforms = [];
}
