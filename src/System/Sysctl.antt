-- ===== src/System/Sysctl.antt =====
-- internal/system/sysctl.go and tuning.go: the text of the sysctl file.
use libra_flux.Base.{Option, none, some, List, [], ◌∷◌, ◌++◌, if◌then◌else◌}
use libra_flux.Base.Text.{GoString, codes, ◌=s◌}
use libra_flux.Base.Assoc.{Assoc, string_eq, lookup}
use libra_flux.Base.Split.{sort_strings}
use libra_flux.Config.Types.{Config}

abbrev pub TuningProfile : Type 0
TuningProfile = Assoc GoString GoString

unfoldable pub profile_minimal : TuningProfile
profile_minimal =
    (codes "net.ipv4.vs.conn_tab_bits", codes "12")
    ∷ (codes "net.core.somaxconn", codes "4096")
    ∷ (codes "net.ipv4.tcp_max_syn_backlog", codes "4096")
    ∷ []

unfoldable pub profile_balanced : TuningProfile
profile_balanced =
    (codes "net.ipv4.vs.conn_tab_bits", codes "18")
    ∷ (codes "net.core.rmem_max", codes "16777216")
    ∷ (codes "net.core.wmem_max", codes "16777216")
    ∷ (codes "net.core.somaxconn", codes "32768")
    ∷ (codes "net.ipv4.tcp_max_syn_backlog", codes "32768")
    ∷ (codes "net.ipv4.tcp_tw_reuse", codes "1")
    ∷ []

unfoldable pub profile_aggressive : TuningProfile
profile_aggressive =
    (codes "net.ipv4.vs.conn_tab_bits", codes "20")
    ∷ (codes "net.core.rmem_max", codes "134217728")
    ∷ (codes "net.core.wmem_max", codes "134217728")
    ∷ (codes "net.core.netdev_max_backlog", codes "250000")
    ∷ (codes "net.core.somaxconn", codes "65535")
    ∷ (codes "net.ipv4.tcp_max_syn_backlog", codes "65535")
    ∷ (codes "net.ipv4.tcp_tw_reuse", codes "1")
    ∷ (codes "net.ipv4.tcp_window_scaling", codes "1")
    ∷ []

-- GetTuningProfile
unfoldable pub get_tuning_profile : GoString → TuningProfile
unfolding profile_minimal profile_balanced profile_aggressive
get_tuning_profile name =
    if name =s codes "minimal"
    then profile_minimal
    else if name =s codes "aggressive"
    then profile_aggressive
    else if name =s codes "balanced"
    then profile_balanced
    else profile_balanced

unfoldable pub profile_keys : TuningProfile → List GoString
profile_keys [] = []
profile_keys ((k, v) ∷ m) = k ∷ profile_keys m

abbrev setting : TuningProfile → GoString → GoString
setting m k = elim (lookup k m) [ none ↦ [] | some v ↦ v ]

unfoldable pub settings : TuningProfile → List GoString → GoString
unfolding lookup
settings m [] = []
settings m (k ∷ ks) = k ++ (codes " = " ++ (setting m k ++ (10 ∷ settings m ks)))

-- generate
unfoldable pub generate : Config → GoString
unfolding settings get_tuning_profile sort_strings profile_keys
generate c =
    let profile = get_tuning_profile c.system.tuning_profile in
    let conntrack = codes "net.ipv4.vs.conntrack = 1" ++ (10 ∷ []) in
    codes "# lbctl managed sysctl configuration"
    ++ (10
        ∷ (codes "# Mode: "
            ++ (c.mode
                ++ (10
                    ∷ (codes "# Profile: "
                        ++ (c.system.tuning_profile
                            ++ (10
                                ∷ 10
                                ∷ (codes "# Mode settings"
                                    ++ (10
                                        ∷ (codes "net.ipv4.ip_forward = 1"
                                            ++ (10
                                                ∷ ((if c.mode =s codes "nat" then conntrack else [])
                                                    ++ (10
                                                        ∷ (codes "# Tuning profile settings"
                                                            ++ (10
                                                            ∷ settings profile (
                                                            sort_strings
                                                            (profile_keys profile)))))))))))))))))

-- Apply: the directory, and then the file.
unfoldable pub apply_sysctl :
    {E W : Type 0} → (W → Option E × W) → (GoString → W → Option E × W) → Config → W → Option E × W
unfolding generate
apply_sysctl mkdir write c w =
    let (failed, u) = mkdir w in
    let written = write (generate c) u in elim failed [ some e ↦ (some e, u) | none ↦ written ]
