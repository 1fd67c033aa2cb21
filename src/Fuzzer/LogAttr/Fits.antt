-- ===== src/Fuzzer/LogAttr/Fits.antt =====
-- Each member of the attributes fits its conversion.
use perf_event_tests.Base.{refl, inl, inr, arith}
use perf_event_tests.Fuzzer.LogAttr.{PerfEventAttr, members}
use perf_event_tests.Fuzzer.LogAttr.Pieces.{AllFit}
use perf_event_tests.Fuzzer.LogAttr.Kept.{AttrFits}

module _ (a : PerfEventAttr) (fits : AttrFits a) where
  pub members-AllFit : AllFit (members a)
  members-AllFit = (
    (inr (inl refl), fits.type),
    (
      (inr (inl refl), fits.size),
      (
        (inr (inr refl), fits.config),
        (
          (inr (inr refl), fits.sample_period),
          (
            (inr (inr refl), fits.sample_type),
            (
              (inr (inr refl), fits.read_format),
              (
                (inr (inl refl), omega (arith, fits.disabled)),
                (
                  (inr (inl refl), omega (arith, fits.inherit)),
                  (
                    (inr (inl refl), omega (arith, fits.pinned)),
                    (
                      (inr (inl refl), omega (arith, fits.exclusive)),
                      (
                        (inr (inl refl), omega (arith, fits.exclude_user)),
                        (
                          (inr (inl refl), omega (arith, fits.exclude_kernel)),
                          (
                            (inr (inl refl), omega (arith, fits.exclude_hv)),
                            (
                              (inr (inl refl), omega (arith, fits.exclude_idle)),
                              (
                                (inr (inl refl), omega (arith, fits.mmap)),
                                (
                                  (inr (inl refl), omega (arith, fits.comm)),
                                  (
                                    (inr (inl refl), omega (arith, fits.freq)),
                                    (
                                      (inr (inl refl), omega (arith, fits.inherit_stat)),
                                      (
                                        (inr (inl refl), omega (arith, fits.enable_on_exec)),
                                        (
                                          (inr (inl refl), omega (arith, fits.task)),
                                          (
                                            (inr (inl refl), omega (arith, fits.watermark)),
                                            (
                                              (inr (inl refl), omega (arith, fits.precise_ip)),
                                              (
                                                (inr (inl refl), omega (arith, fits.mmap_data)),
                                                (
                                                  (
                                                    inr (inl refl),
                                                    omega (arith, fits.sample_id_all),
                                                  ),
                                                  (
                                                    (
                                                      inr (inl refl),
                                                      omega (arith, fits.exclude_host),
                                                    ),
                                                    (
                                                      (
                                                        inr (inl refl),
                                                        omega (arith, fits.exclude_guest),
                                                      ),
                                                      (
                                                        (
                                                          inr (inl refl),
                                                          omega
                                                            (arith, fits.exclude_callchain_kernel),
                                                        ),
                                                        (
                                                          (
                                                            inr (inl refl),
                                                            omega
                                                            (arith, fits.exclude_callchain_user),
                                                          ),
                                                          (
                                                            (
                                                            inr (inl refl),
                                                            omega (arith, fits.mmap2),
                                                            ),
                                                            (
                                                            (
                                                            inr (inl refl),
                                                            omega (arith, fits.comm_exec),
                                                            ),
                                                            (
                                                            (
                                                            inr (inl refl),
                                                            omega (arith, fits.use_clockid),
                                                            ),
                                                            (
                                                            (
                                                            inr (inl refl),
                                                            omega (arith, fits.context_switch),
                                                            ),
                                                            (
                                                            (
                                                            inr (inl refl),
                                                            omega (arith, fits.write_backward),
                                                            ),
                                                            (
                                                            (
                                                            inr (inl refl),
                                                            omega (arith, fits.namespaces),
                                                            ),
                                                            (
                                                            (
                                                            inr (inl refl),
                                                            omega (arith, fits.ksymbol),
                                                            ),
                                                            (
                                                            (
                                                            inr (inl refl),
                                                            omega (arith, fits.bpf_event),
                                                            ),
                                                            (
                                                            (
                                                            inr (inl refl),
                                                            omega (arith, fits.aux_output),
                                                            ),
                                                            (
                                                            (
                                                            inr (inl refl),
                                                            omega (arith, fits.cgroup),
                                                            ),
                                                            (
                                                            (
                                                            inr (inl refl),
                                                            omega (arith, fits.text_poke),
                                                            ),
                                                            (
                                                            (
                                                            inr (inl refl),
                                                            omega (arith, fits.build_id),
                                                            ),
                                                            (
                                                            (
                                                            inr (inl refl),
                                                            omega (arith, fits.inherit_thread),
                                                            ),
                                                            (
                                                            (
                                                            inr (inl refl),
                                                            omega (arith, fits.remove_on_exec),
                                                            ),
                                                            (
                                                            (
                                                            inr (inl refl),
                                                            omega (arith, fits.sigtrap),
                                                            ),
                                                            (
                                                            (inr (inl refl), fits.wakeup_events),
                                                            (
                                                            (inr (inl refl), fits.bp_type),
                                                            (
                                                            (inr (inr refl), fits.config1),
                                                            (
                                                            (inr (inr refl), fits.config2),
                                                            (
                                                            (
                                                            inr (inr refl),
                                                            fits.branch_sample_type,
                                                            ),
                                                            (
                                                            (inr (inr refl), fits.sample_regs_user),
                                                            (
                                                            (
                                                            inr (inl refl),
                                                            fits.sample_stack_user,
                                                            ),
                                                            (
                                                            (inr (inl refl), fits.clockid),
                                                            (
                                                            (inr (inr refl), fits.sample_regs_intr),
                                                            (
                                                            (inr (inl refl), fits.aux_watermark),
                                                            (
                                                            (inl refl, fits.sample_max_stack),
                                                            (
                                                            (inr (inl refl), fits.aux_sample_size),
                                                            tt,
                                                            ),
                                                            ),
                                                            ),
                                                            ),
                                                            ),
                                                            ),
                                                            ),
                                                            ),
                                                            ),
                                                            ),
                                                            ),
                                                            ),
                                                            ),
                                                            ),
                                                            ),
                                                            ),
                                                            ),
                                                            ),
                                                            ),
                                                            ),
                                                            ),
                                                            ),
                                                            ),
                                                            ),
                                                            ),
                                                            ),
                                                          ),
                                                        ),
                                                      ),
                                                    ),
                                                  ),
                                                ),
                                              ),
                                            ),
                                          ),
                                        ),
                                      ),
                                    ),
                                  ),
                                ),
                              ),
                            ),
                          ),
                        ),
                      ),
                    ),
                  ),
                ),
              ),
            ),
          ),
        ),
      ),
    ),
  )
