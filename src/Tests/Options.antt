-- ===== src/Tests/Options.antt =====
-- A build from the command line and from an editor, and the command exec of an evaluation.
use buildg.Prelude.{◌≡◌, refl, false, List, [], map}
use buildg.Text.{Text, codes, text_eq}
use buildg.Errors.{Result, ok}
use buildg.Dap.Strings.{split_path}
use buildg.Dap.Debugger.{BuildTools, parse_solve_opt}
use buildg.Main.Options.{has_prefix, contains, cache_option, parse_build}
use buildg.Main.Options.Editors.{flags_of, without_cache, map_ok, parse_build-editor}
use buildg.Tests.Container as tests
use buildg.Tests.Dap.{config}

-- parsers that accept all
abbrev pub tools : BuildTools
tools = record {
  Attachable = Text;
  Export = Text;
  Ssh = Text;
  parse_opt = λ os. ok (map (λ o. (o, [])) os);
  parse_output = λ os. ok os;
  docker_auth = codes "auth";
  parse_ssh = λ os. ok os;
  ssh_provider = λ s. ok (codes "agent");
  parse_secret = λ s. ok (codes "secrets");
}

abbrev pub parse_cache : List Text → Result (List Text)
parse_cache os = ok os

no_scheme : contains (codes "://") (codes "/src/") ≡ false
unfolding contains has_prefix
no_scheme = refl

parse_build-editor_example :
    parse_build tools Text parse_cache (flags_of tools Text parse_cache config)
    ≡ map_ok tools Text parse_cache
        (without_cache tools Text parse_cache)
        (parse_solve_opt tools config)
unfolding split_path
parse_build-editor_example =
    parse_build-editor tools Text parse_cache config refl refl refl refl no_scheme

registry :
    (cache_option (codes "user/app:cache") ≡ codes "type=registry,ref=user/app:cache")
    × (cache_option (codes "type=local,src=c") ≡ codes "type=local,src=c")
unfolding contains has_prefix
registry = (refl, refl)
