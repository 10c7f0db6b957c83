-- ===== src/Setup/Hardware.antt =====
-- pkg/setup/detect.go: what stays the same in a hardware description, what is measured, and the merge
-- of the two.
use servers.Base.{◌≡◌, refl, ap, List, [], ◌∷◌, map, Option, none, some}
use servers.Setup.{CpuSpec, GpuSpec, RamSpec, HardwareSpec}

abbrev stable_cpu : CpuSpec → CpuSpec
stable_cpu c = record c { temp_c = 0 }

abbrev stable_gpu : GpuSpec → GpuSpec
stable_gpu g = record g { temp_c = 0; util_pct = 0; vram_free = 0 }

abbrev stable_ram : Option RamSpec → Option RamSpec
stable_ram none = none
stable_ram (some r) = some (record { total = r.total; free = 0 })

unfoldable pub stable_hardware : HardwareSpec → HardwareSpec
stable_hardware hw = record {
  cpus = map stable_cpu hw.cpus;
  gpus = map stable_gpu hw.gpus;
  ram = stable_ram hw.ram;
}

abbrev volatile_cpu : CpuSpec → CpuSpec
volatile_cpu c = record { name = []; cores = 0; clock_mhz = 0; temp_c = c.temp_c }

abbrev volatile_gpu : GpuSpec → GpuSpec
volatile_gpu g = record g { name = []; driver = []; vram_total = 0 }

abbrev volatile_ram : Option RamSpec → Option RamSpec
volatile_ram none = none
volatile_ram (some r) = some (record { total = 0; free = r.free })

unfoldable pub volatile_hardware : HardwareSpec → HardwareSpec
volatile_hardware hw = record {
  cpus = map volatile_cpu hw.cpus;
  gpus = map volatile_gpu hw.gpus;
  ram = volatile_ram hw.ram;
}

-- The measurements of the devices that both lists have.
abbrev merge_cpus : List CpuSpec → List CpuSpec → List CpuSpec
merge_cpus [] vs = []
merge_cpus (c ∷ cs) [] = c ∷ cs
merge_cpus (c ∷ cs) (v ∷ vs) = record c { temp_c = v.temp_c } ∷ merge_cpus cs vs

abbrev merge_gpus : List GpuSpec → List GpuSpec → List GpuSpec
merge_gpus [] vs = []
merge_gpus (g ∷ gs) [] = g ∷ gs
merge_gpus (g ∷ gs) (v ∷ vs) =
    record g { temp_c = v.temp_c; util_pct = v.util_pct; vram_free = v.vram_free }
    ∷ merge_gpus gs vs

abbrev merge_ram : Option RamSpec → Option RamSpec → Option RamSpec
merge_ram (some r) (some v) = some (record { total = r.total; free = v.free })
merge_ram r v = r

unfoldable pub merge_hardware : HardwareSpec → HardwareSpec → HardwareSpec
merge_hardware stable vol = record {
  cpus = merge_cpus stable.cpus vol.cpus;
  gpus = merge_gpus stable.gpus vol.gpus;
  ram = merge_ram stable.ram vol.ram;
}

merge_cpus-stable_cpu :
    (cs : List CpuSpec) → merge_cpus (map stable_cpu cs) (map volatile_cpu cs) ≡ cs
merge_cpus-stable_cpu [] = refl
merge_cpus-stable_cpu (c ∷ cs) = ap (λ r. c ∷ r) (merge_cpus-stable_cpu cs)

merge_gpus-stable_gpu :
    (gs : List GpuSpec) → merge_gpus (map stable_gpu gs) (map volatile_gpu gs) ≡ gs
merge_gpus-stable_gpu [] = refl
merge_gpus-stable_gpu (g ∷ gs) = ap (λ r. g ∷ r) (merge_gpus-stable_gpu gs)

merge_ram-stable_ram : (r : Option RamSpec) → merge_ram (stable_ram r) (volatile_ram r) ≡ r
merge_ram-stable_ram none = refl
merge_ram-stable_ram (some r) = refl

stable_cpu-merge_cpus :
    (cs vs : List CpuSpec) → map stable_cpu (merge_cpus cs vs) ≡ map stable_cpu cs
stable_cpu-merge_cpus [] vs = refl
stable_cpu-merge_cpus (c ∷ cs) [] = refl
stable_cpu-merge_cpus (c ∷ cs) (v ∷ vs) = ap (λ r. stable_cpu c ∷ r) (stable_cpu-merge_cpus cs vs)

stable_gpu-merge_gpus :
    (gs vs : List GpuSpec) → map stable_gpu (merge_gpus gs vs) ≡ map stable_gpu gs
stable_gpu-merge_gpus [] vs = refl
stable_gpu-merge_gpus (g ∷ gs) [] = refl
stable_gpu-merge_gpus (g ∷ gs) (v ∷ vs) = ap (λ r. stable_gpu g ∷ r) (stable_gpu-merge_gpus gs vs)

stable_ram-merge_ram : (r v : Option RamSpec) → stable_ram (merge_ram r v) ≡ stable_ram r
stable_ram-merge_ram none v = refl
stable_ram-merge_ram (some r) none = refl
stable_ram-merge_ram (some r) (some v) = refl

-- What is stable in a description and what is measured make up the whole of it again, and measurements
-- of other devices, or of fewer or more of them, change nothing of what is stable.
pub merge_hardware-stable_hardware :
    (hw vol : HardwareSpec)
    → (merge_hardware (stable_hardware hw) (volatile_hardware hw) ≡ hw)
      × (stable_hardware (merge_hardware hw vol) ≡ stable_hardware hw)
unfolding merge_hardware stable_hardware volatile_hardware
merge_hardware-stable_hardware hw vol = (
  rw (merge_cpus-stable_cpu hw.cpus)
      (rw (merge_gpus-stable_gpu hw.gpus) (rw (merge_ram-stable_ram hw.ram) refl)),
  rw (stable_cpu-merge_cpus hw.cpus vol.cpus)
      (rw (stable_gpu-merge_gpus hw.gpus vol.gpus) (rw (stable_ram-merge_ram hw.ram vol.ram) refl)),
)
