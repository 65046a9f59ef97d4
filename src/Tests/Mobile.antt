-- ===== src/Tests/Mobile.antt =====
-- Concrete runs of packages/dev-setup with the mobile toolchains.
use epistl.Prelude.{◌≡◌, refl, true, false, none, some, [], codes}
use epistl.Text.{Text}
use epistl.DevSetup.{Executor, Host, linux, apt, PromptPolicy, Flags, no_flags, absent}
use epistl.DevSetup.Paths.{parent, same_path}
use epistl.DevSetup.Tools.Node.{Disk, install_node}
use epistl.DevSetup.Mobile.{Environment}
use epistl.DevSetup.Mobile.Jdk.{ensure_jdk}
use epistl.DevSetup.Mobile.Studio.{success}
use epistl.DevSetup.Main.{Setting, main, exit_success}
use epistl.Tests.DevSetup.{fresh, io, nothing_typed, checkout, writes}

abbrev ubuntu : Host
ubuntu = record { os = linux; distro = some apt; is_wsl = false }

abbrev java : Text → Executor
java version calls c = record { status_ok = true; stdout = []; stderr = version }

abbrev asked_at : PromptPolicy
asked_at = record { assume_yes = false; is_tty = true; typed = nothing_typed }

abbrev java_26 : Text
java_26 = codes "openjdk version \"26.1\""

-- Java 8, update 201.
abbrev java_8 : Text
java_8 = codes "java version \"1.8.0_201\""

-- No variable is set, and nothing is on the disk.
abbrev no_env : Environment
no_env = record { var = λ name. none; path_exists = λ calls path. false }

abbrev empty_disk : Disk
empty_disk = record { is_file = λ calls path. false; is_dir = λ calls path. false }

abbrev on_ubuntu : Setting
on_ubuntu = record {
  exec = java (codes "v22.13.0");
  launcher = λ calls c. success;
  env = no_env;
  disk = empty_disk;
  io = io;
  writes = writes;
  home = codes "/home/dev";
  user = codes "dev";
  repo_root = codes "/repo";
}

abbrev check_flags : Flags
check_flags = record no_flags { check = true }

-- All core tools answer, so the run succeeds although the Android SDK is not there.
succeeds :
    (main on_ubuntu true nothing_typed check_flags (some ubuntu) checkout fresh).0 ≡ exit_success
unfolding main
succeeds = refl

-- A Java that fails is not taken for a JDK.
abbrev no_java : Executor
no_java calls c = record { status_ok = false; stdout = []; stderr = codes "17" }

no_jdk : (ensure_jdk no_java asked_at true ubuntu fresh).0 ≡ absent (codes "JDK 17+ not found")
unfolding ensure_jdk
no_jdk = refl

parents :
    (parent (codes "/home/dev/.fnm/fnm") ≡ some (codes "/home/dev/.fnm"))
    × (parent (codes "fnm") ≡ some [])
    × (parent (codes "/") ≡ none)
    × (parent (codes "./a/") ≡ some (codes "."))
unfolding parent
parents = (refl, refl, refl, refl)

same_directory : same_path (codes "/a//b/") (codes "/a/./b") ≡ true
unfolding same_path
same_directory = refl

-- fnm is where its script puts it, and prints where node is.
abbrev fnm_disk : Disk
fnm_disk = record {
  is_file = λ calls path. same_path path (codes "/home/dev/.fnm/fnm");
  is_dir = λ calls path. false;
}

abbrev fnm_exec : Executor
fnm_exec calls c = record {
  status_ok = true;
  stdout = codes "Using Node v22\n/run/fnm/bin/node\n/home/dev/.fnm/fnm\n";
  stderr = [];
}

node_on_path :
    (install_node fnm_exec asked_at false fnm_disk io ubuntu (codes "/home/dev") fresh).1.path
    ≡ codes "/home/dev/.fnm:/run/fnm/bin"
unfolding install_node
node_on_path = refl
