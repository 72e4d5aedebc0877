-- ===== src/Tests/Tools.antt =====
-- The build tooling.
use lanscope.Base.Utf8.{from_utf8_lossy, trim}
use lanscope.Base.{List, refl, ◌≡◌, ◌∷◌, [], true, inl, inr, none}
use lanscope.Base.Text.{Bytes, codes}
use lanscope.Tooling.{System}
use lanscope.Tooling.Xtask.{main, succeeded, failed, linker_missing}

-- A system on which every command succeeds, and which records the programs that were run.
abbrev installed : System
installed = record {
  World = List Bytes;
  run =
      λ w c. (c.program ∷ w, inr (record { success = true; stdout = codes "bpf-linker 0.9.14\n" }));
  copy = λ w from to. (w, none);
}

-- The same without the linker.
abbrev bare : System
bare = record installed { run = λ w c. (c.program ∷ w, inl (codes "No such file or directory")) }

builds_release :
    main installed [] (codes "xtask" ∷ codes "build-ebpf" ∷ codes "--release" ∷ []) ≡ record {
      system = codes "cargo" ∷ codes "bpf-linker" ∷ [];
      printed =
          codes "bpf-linker: bpf-linker 0.9.14"
          ∷ codes "toolchain OK"
          ∷ codes "eBPF object built (release)"
          ∷ [];
      outcome = succeeded;
    }
unfolding main trim from_utf8_lossy
builds_release = refl

stops_without_linker : main bare [] (codes "xtask" ∷ codes "build-ebpf" ∷ []) ≡ record {
  system = codes "bpf-linker" ∷ [];
  printed = [];
  outcome = failed (codes "eBPF toolchain check failed" ∷ linker_missing ∷ []);
}
unfolding main
stops_without_linker = refl
