-- ===== src/DevSetup/Tools/Probes.antt =====
-- That `--check` only looks (packages/dev-setup/src/tools).
use epistl.Prelude.{
  ◌≡◌, refl, Bool, true, false, ◌&&◌, Option, none, some, List, [], ◌∷◌, all, any, codes,
  Bool-cases, inl, inr,
}
use epistl.Text.{Text, same, same_texts}
use epistl.DevSetup.{
  Executor, World, Call, M, ◌>>=◌, pure, run, Host, ToolOutcome, absent, PromptPolicy,
}
use epistl.DevSetup.Docker.{
  DockerAccess, ambient, via_sg, sg_on_path, probe_docker_access, probe_rest, probe_sg, try_present,
  present_by, info_of, or_continue, after_sg, docker_missing, ensure_docker,
}
use epistl.DevSetup.Profile.{ProfileIo}
use epistl.DevSetup.Tools.{
  ensure_rust, rust_present, ensure_sccache, found, ensure_moon, ensure_node, usable, core_tools,
  node_version_ok, old_report,
}

abbrev pub version_call : Text → Call
version_call program = (program, codes "--version" ∷ [])

-- The commands that only ask: for a version, for the state of the docker daemon, and for the paths of `sg`,
-- of Android Studio and of the Command Line Tools.
abbrev pub asking : List Call
asking =
    version_call (codes "rustup")
    ∷ version_call (codes "cargo")
    ∷ version_call (codes "rustc")
    ∷ version_call (codes "sccache")
    ∷ version_call (codes "node")
    ∷ version_call (codes "moon")
    ∷ version_call (codes "pod")
    ∷ (codes "java", codes "-version" ∷ [])
    ∷ (codes "which", codes "studio" ∷ [])
    ∷ (codes "which", codes "android-studio" ∷ [])
    ∷ (codes "xcode-select", codes "-p" ∷ [])
    ∷ (codes "docker", codes "info" ∷ [])
    ∷ (codes "bash", codes "-c" ∷ codes "command -v sg" ∷ [])
    ∷ (codes "sg", codes "docker" ∷ codes "-c" ∷ codes "docker info" ∷ [])
    ∷ []

unfoldable pub asks : Call → Bool
unfolding same same_texts
asks c = any (λ d. same c.0 d.0 && same_texts c.1 d.1) asking

-- That all commands so far only ask, and that the shell profile and the variable `PATH` are those of `p`.
pub record HasOnlyAsked (p : Option Text × Text) (w : World) : Type 0 where
  pub asked : all asks w.calls ≡ true
  pub kept : (w.profile, w.path) ≡ p

module _ (exec : Executor) (p : Option Text × Text) where
  pub run-HasOnlyAsked :
      (program : Text) (args : List Text) (w : World)
      → asks (program, args) ≡ true
      → HasOnlyAsked p w
      → HasOnlyAsked p (run exec program args w).1
  unfolding run
  run-HasOnlyAsked program args w a h = record { asked = rw (a, h.asked) refl; kept = h.kept }

  sg-HasOnlyAsked : (w : World) → HasOnlyAsked p w → HasOnlyAsked p (sg_on_path exec w).1
  unfolding sg_on_path asks
  sg-HasOnlyAsked w h =
      run-HasOnlyAsked (codes "bash") (codes "-c" ∷ codes "command -v sg" ∷ []) w refl h

  info-HasOnlyAsked :
      (access : DockerAccess) (w : World)
      → HasOnlyAsked p w
      → HasOnlyAsked p (info_of exec access w).1
  unfolding asks
  info-HasOnlyAsked ambient w h = run-HasOnlyAsked (codes "docker") (codes "info" ∷ []) w refl h
  info-HasOnlyAsked via_sg w h =
      run-HasOnlyAsked (codes "sg") (codes "docker" ∷ codes "-c" ∷ codes "docker info" ∷ []) w refl
        h

  probe_sg-HasOnlyAsked :
      (b : Bool) (w : World) → HasOnlyAsked p w → HasOnlyAsked p (probe_sg exec b w).1
  probe_sg-HasOnlyAsked false w h = h
  probe_sg-HasOnlyAsked true w h = info-HasOnlyAsked via_sg w h

  probe_rest-HasOnlyAsked :
      (o : Option Text) (w : World) → HasOnlyAsked p w → HasOnlyAsked p (probe_rest exec o w).1
  probe_rest-HasOnlyAsked none w h = probe_sg-HasOnlyAsked _ _ (sg-HasOnlyAsked w h)
  probe_rest-HasOnlyAsked (some out) w h = h

  present_by-HasOnlyAsked :
      (host : Host) (o : Option DockerAccess) (w : World)
      → HasOnlyAsked p w
      → HasOnlyAsked p (present_by exec host o w).1
  present_by-HasOnlyAsked host none w h = h
  present_by-HasOnlyAsked host (some access) w h = info-HasOnlyAsked access w h

  try_present-HasOnlyAsked :
      (host : Host) (w : World) → HasOnlyAsked p w → HasOnlyAsked p (try_present exec host w).1
  unfolding try_present probe_docker_access
  try_present-HasOnlyAsked host w h =
      present_by-HasOnlyAsked host _ _ (probe_rest-HasOnlyAsked _ _ (info-HasOnlyAsked ambient w h))

  module _ (policy : PromptPolicy) where
    docker-HasOnlyAsked :
        (user : Text) (host : Host) (w : World)
        → HasOnlyAsked p w
        → HasOnlyAsked p (ensure_docker exec policy true user host w).1
    unfolding ensure_docker
    docker-HasOnlyAsked user host w h =
        decided (try_present exec host w).0 (try_present exec host w).1
          (try_present-HasOnlyAsked host w h)
      where
        decided :
            (o : Option ToolOutcome) (v : World)
            → HasOnlyAsked p v
            → HasOnlyAsked p
                (or_continue exec o
                  (after_sg exec true host.os host >>= λ s.
                    or_continue exec s (docker_missing exec true policy user host))
                  v).1
        decided none v k = k
        decided (some outcome) v k = k

    found-HasOnlyAsked :
        (o : Option Text) (report : Text) (w : World)
        → HasOnlyAsked p w
        → HasOnlyAsked p (found exec policy true o (pure (absent report)) w).1
    found-HasOnlyAsked none report w h = h
    found-HasOnlyAsked (some version) report w h = h

    rust-HasOnlyAsked :
        (w : World) → HasOnlyAsked p w → HasOnlyAsked p (ensure_rust exec policy true w).1
    unfolding ensure_rust asks
    rust-HasOnlyAsked w h =
        let after_rustup = run-HasOnlyAsked (codes "rustup") (codes "--version" ∷ []) w refl h in
        let after_cargo =
          run-HasOnlyAsked (codes "cargo") (codes "--version" ∷ []) _ refl after_rustup in
        three _ _ _ _ _
          (run-HasOnlyAsked (codes "rustc") (codes "--version" ∷ []) _ refl after_cargo)
      where
        three :
            (ru ca rc : Option Text) (absent_rust : ToolOutcome) (v : World)
            → HasOnlyAsked p v
            → HasOnlyAsked p (rust_present exec policy true ru ca rc (pure absent_rust) v).1
        three none ca rc a v k = k
        three (some ru) none rc a v k = k
        three (some ru) (some ca) none a v k = k
        three (some ru) (some ca) (some rc) a v k = k

    node-HasOnlyAsked :
        (install_node : M ToolOutcome) (w : World)
        → HasOnlyAsked p w
        → HasOnlyAsked p (ensure_node exec policy true install_node w).1
    unfolding ensure_node asks
    node-HasOnlyAsked install_node w h =
        chosen (run exec (codes "node") (codes "--version" ∷ []) w).0 (codes "node not found") _
          (run-HasOnlyAsked (codes "node") (codes "--version" ∷ []) w refl h)
      where
        chosen :
            (o : Option Text) (a : Text) (v : World)
            → HasOnlyAsked p v
            → HasOnlyAsked p
                (usable exec policy true o
                  (pure (absent a))
                  (pure (absent (old_report exec policy true o)))
                  v).1
        chosen none a v k = k
        chosen (some version) a v k = elim (Bool-cases (node_version_ok version)) [
          | inl fits ↦ rw fits k
          | inr old ↦ rw old k
        ]

    -- Under `--check`, the core tools are only asked for: no command is run that is not in the list of
    -- those that ask, and the shell profile and `PATH` stay as they were.
    pub core_tools-HasOnlyAsked :
        (host : Host) (user : Text) (io : ProfileIo) (install_node : M ToolOutcome) (w : World)
        → HasOnlyAsked p w
        → HasOnlyAsked p (core_tools exec policy true host user io install_node w).1
    unfolding core_tools ensure_sccache ensure_moon asks
    core_tools-HasOnlyAsked host user io install_node w h = docker-HasOnlyAsked user host _ (
        found-HasOnlyAsked _ _ _ (
          run-HasOnlyAsked (codes "moon") (codes "--version" ∷ []) _ refl (
            node-HasOnlyAsked install_node _ (
              found-HasOnlyAsked _ _ _ (
                run-HasOnlyAsked (codes "sccache") (codes "--version" ∷ []) _ refl
                  (rust-HasOnlyAsked w h))))))
