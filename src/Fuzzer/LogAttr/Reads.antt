-- ===== src/Fuzzer/LogAttr/Reads.antt =====
-- The "O" line of the fuzzer's log is read back by the report.
use perf_event_tests.Base.{
  ℕ, ◌%◌, ◌^◌, ◌<◌, ◌≡◌, refl, sym, ap, ◌∙◌, inl, inr, some, [], ◌∷◌, ◌++◌, arith,
}
use perf_event_tests.Report.Sscanf.{scan_all, sscanf}
use perf_event_tests.Report.Sscanf.Numbers.{IsWidth}
use perf_event_tests.Report.Scan.{Attr, open_format, opened_of, parse_open_event}
use perf_event_tests.Fuzzer.LogAttr.{PerfEventAttr, members, head, open_line}
use perf_event_tests.Fuzzer.LogAttr.Pieces.{
  AllFit, values, pieces_text-scan_all, pieces_text-append,
}
use perf_event_tests.Fuzzer.LogAttr.Kept.{AttrFits, kept}
use perf_event_tests.Fuzzer.LogAttr.Fits.{members-AllFit}

module _ (a : PerfEventAttr) (fits : AttrFits a) where
  bit : (v : ℕ) → v < 2 → v % 2 ≡ v
  bit v h = omega arith

  two_bits : (v : ℕ) → v < 4 → v % 4 ≡ v
  two_bits v h = omega arith

  -- The flags as bit fields hold them.
  abbrev kept_bits : Attr
  kept_bits = record (kept a) {
    disabled = a.disabled % 2;
    inherit = a.inherit % 2;
    pinned = a.pinned % 2;
    exclusive = a.exclusive % 2;
    exclude_user = a.exclude_user % 2;
    exclude_kernel = a.exclude_kernel % 2;
    exclude_hv = a.exclude_hv % 2;
    exclude_idle = a.exclude_idle % 2;
    mmap = a.mmap % 2;
    comm = a.comm % 2;
    freq = a.freq % 2;
    inherit_stat = a.inherit_stat % 2;
    enable_on_exec = a.enable_on_exec % 2;
    task = a.task % 2;
    watermark = a.watermark % 2;
    precise_ip = a.precise_ip % 4;
    mmap_data = a.mmap_data % 2;
    sample_id_all = a.sample_id_all % 2;
    exclude_host = a.exclude_host % 2;
    exclude_guest = a.exclude_guest % 2;
    exclude_callchain_user = a.exclude_callchain_user % 2;
    exclude_callchain_kernel = a.exclude_callchain_kernel % 2;
    mmap2 = a.mmap2 % 2;
    comm_exec = a.comm_exec % 2;
    use_clockid = a.use_clockid % 2;
    context_switch = a.context_switch % 2;
    write_backward = a.write_backward % 2;
    namespaces = a.namespaces % 2;
    ksymbol = a.ksymbol % 2;
    bpf_event = a.bpf_event % 2;
    aux_output = a.aux_output % 2;
    cgroup = a.cgroup % 2;
    text_poke = a.text_poke % 2;
    build_id = a.build_id % 2;
    inherit_thread = a.inherit_thread % 2;
    remove_on_exec = a.remove_on_exec % 2;
    sigtrap = a.sigtrap % 2;
  }

  kept_flags : kept_bits ≡ kept a
  kept_flags = λ i. record (kept a) {
    disabled = bit a.disabled fits.disabled i;
    inherit = bit a.inherit fits.inherit i;
    pinned = bit a.pinned fits.pinned i;
    exclusive = bit a.exclusive fits.exclusive i;
    exclude_user = bit a.exclude_user fits.exclude_user i;
    exclude_kernel = bit a.exclude_kernel fits.exclude_kernel i;
    exclude_hv = bit a.exclude_hv fits.exclude_hv i;
    exclude_idle = bit a.exclude_idle fits.exclude_idle i;
    mmap = bit a.mmap fits.mmap i;
    comm = bit a.comm fits.comm i;
    freq = bit a.freq fits.freq i;
    inherit_stat = bit a.inherit_stat fits.inherit_stat i;
    enable_on_exec = bit a.enable_on_exec fits.enable_on_exec i;
    task = bit a.task fits.task i;
    watermark = bit a.watermark fits.watermark i;
    precise_ip = two_bits a.precise_ip fits.precise_ip i;
    mmap_data = bit a.mmap_data fits.mmap_data i;
    sample_id_all = bit a.sample_id_all fits.sample_id_all i;
    exclude_host = bit a.exclude_host fits.exclude_host i;
    exclude_guest = bit a.exclude_guest fits.exclude_guest i;
    exclude_callchain_user = bit a.exclude_callchain_user fits.exclude_callchain_user i;
    exclude_callchain_kernel = bit a.exclude_callchain_kernel fits.exclude_callchain_kernel i;
    mmap2 = bit a.mmap2 fits.mmap2 i;
    comm_exec = bit a.comm_exec fits.comm_exec i;
    use_clockid = bit a.use_clockid fits.use_clockid i;
    context_switch = bit a.context_switch fits.context_switch i;
    write_backward = bit a.write_backward fits.write_backward i;
    namespaces = bit a.namespaces fits.namespaces i;
    ksymbol = bit a.ksymbol fits.ksymbol i;
    bpf_event = bit a.bpf_event fits.bpf_event i;
    aux_output = bit a.aux_output fits.aux_output i;
    cgroup = bit a.cgroup fits.cgroup i;
    text_poke = bit a.text_poke fits.text_poke i;
    build_id = bit a.build_id fits.build_id i;
    inherit_thread = bit a.inherit_thread fits.inherit_thread i;
    remove_on_exec = bit a.remove_on_exec fits.remove_on_exec i;
    sigtrap = bit a.sigtrap fits.sigtrap i;
  }

-- The "O" line that the fuzzer logs for an event is read back by the report: the fd, the arguments of the
-- call and every member of the attributes that is logged, negative numbers included.
pub parse_open_event-open_line :
    (fd pid cpu group_fd flags : ℕ) (a : PerfEventAttr)
    → fd < 2 ^ 32
    → pid < 2 ^ 32
    → cpu < 2 ^ 32
    → group_fd < 2 ^ 32
    → flags < 2 ^ 64
    → AttrFits a
    → parse_open_event (open_line fd pid cpu group_fd flags a)
      ≡ some (record {
        orig_fd = fd;
        pid = pid;
        cpu = cpu;
        group_fd = group_fd;
        flags = flags;
        attr = kept a;
      })
unfolding parse_open_event
parse_open_event-open_line fd pid cpu group_fd flags a fd_fits pid_fits cpu_fits group_fits
      flags_fit fits =
    let int : IsWidth 32 = inr (inl refl) in
    let all : AllFit (head fd pid cpu group_fd flags ++ members a) = (
      (int, fd_fits),
      (
        (int, pid_fits),
        (
          (int, cpu_fits),
          ((int, group_fits), ((inr (inr refl), flags_fit), members-AllFit a fits)),
        ),
      ),
    ) in
    let scanned : sscanf open_format (open_line fd pid cpu group_fd flags a)
        ≡ values (head fd pid cpu group_fd flags ++ members a) =
      ap (λ l. scan_all open_format (b' ' ∷ l))
        (sym (pieces_text-append (head fd pid cpu group_fd flags) (members a) (b'\n' ∷ [])))
      ∙ pieces_text-scan_all (head fd pid cpu group_fd flags ++ members a) (b'\n' ∷ []) all in
    ap opened_of scanned
    ∙ ap
        (λ (x : Attr). some (record {
          orig_fd = fd;
          pid = pid;
          cpu = cpu;
          group_fd = group_fd;
          flags = flags;
          attr = x;
        }))
        (kept_flags a fits)
