-- ===== src/Fuzzer/Steady.antt =====
-- The parts of the fuzzer that leave the table of mappings and its counter alone.
pub mod Operations
use perf_event_tests.Base.{ℕ, Bool}
use perf_event_tests.Fuzzer.State.{OurMmap, World, Config}
use perf_event_tests.Fuzzer.Triple.{Steady, steady}
use perf_event_tests.Fuzzer.Find
use perf_event_tests.Fuzzer.Random
use perf_event_tests.Fuzzer.Mmap
use perf_event_tests.Fuzzer.Close

pub prot-Steady : (w : World) → Steady (Random.mmap_random_prot w)
unfolding Random.mmap_random_prot
prot-Steady w = search steady depth 20

pub size-Steady : (w : World) (n : ℕ) → Steady (Random.mmap_random_size w n)
unfolding Random.mmap_random_size
size-Steady w n = search steady depth 20

pub flags-Steady : (w : World) → Steady (Random.mmap_random_flags w)
unfolding Random.mmap_random_flags
flags-Steady w = search steady depth 60

pub find_event-Steady : (w : World) → Steady (Find.find_random_active_event w)
unfolding Find.find_random_active_event
find_event-Steady w = search steady depth 20

pub find_mmap-Steady : (w : World) → Steady (Find.find_random_active_mmap w)
unfolding Find.find_random_active_mmap
find_mmap-Steady w = search steady depth 20

print_segfault-Steady : (i : ℕ) (m : OurMmap) → Steady (Mmap.print_segfault i m)
unfolding Mmap.print_segfault
print_segfault-Steady i m = search steady depth 20

overwrite-Steady :
    (w : World) (c : Config) (i v : ℕ) (m : OurMmap) → Steady (Mmap.overwrite w c i v m)
unfolding Mmap.overwrite
overwrite-Steady w c i v m = search (steady, print_segfault-Steady) depth 20

pub trash-Steady : (w : World) (c : Config) → Steady (Mmap.trash_random_mmap w c)
unfolding Mmap.trash_random_mmap
trash-Steady w c = search (steady, find_mmap-Steady, overwrite-Steady) depth 20

pub close_fd-Steady :
    (w : World) (c : Config) (fd : ℕ) (b : Bool) → Steady (Close.close_fd w c fd b)
unfolding Close.close_fd
close_fd-Steady w c fd b = search steady depth 20
