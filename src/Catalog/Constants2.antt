-- ===== src/Catalog/Constants2.antt =====
-- include/fountainer/datapoints/generated.hpp: the typed constants from line 478 to line 583.
use fountainer_client_framew.Common.{List, [], ◌∷◌}
use fountainer_client_framew.Datapoint.{nvs, read_only, read_write, volatile}
use fountainer_client_framew.Catalog.Typed.{
  TypedConstant, typed, as_bool, as_f32, as_i16, as_text, as_u16, as_u32, as_u8,
}

abbrev pub constants_2 : List TypedConstant
constants_2 =
    typed as_u16 read_write nvs 54 "Fon_Dry_Run_Min_Rise"
    ∷ typed as_u16 read_write nvs 55 "Fon_Check_Valve_Timeout"
    ∷ typed as_u16 read_write nvs 56 "Fon_Pressure_Drop_Rate"
    ∷ typed as_u16 read_write nvs 57 "Fon_Report_Interval"
    ∷ typed as_i16 read_write nvs 58 "Fon_Sensor_Offset"
    ∷ typed as_f32 read_write nvs 59 "Fon_Sensor_Scale"
    ∷ typed as_f32 read_write nvs 60 "Fon_Sensor_Range_Bar"
    ∷ typed as_u16 read_write nvs 61 "Fon_Min_Off_Time"
    ∷ typed as_f32 read_write nvs 62 "Fon_Filter_Alpha"
    ∷ typed as_f32 read_write nvs 63 "Fon_Stable_Slope"
    ∷ typed as_u8 read_write nvs 64 "Fon_Max_Starts_Per_Hour"
    ∷ typed as_f32 read_write nvs 65 "Fon_Hand_Min_Pressure"
    ∷ typed as_f32 read_write nvs 66 "Fon_Hand_Max_Pressure"
    ∷ typed as_f32 read_write nvs 67 "Fon_Tank_Min_Pressure"
    ∷ typed as_f32 read_write nvs 68 "Fon_Tank_Max_Pressure"
    ∷ typed as_u16 read_write nvs 69 "Fon_Hand_Max_Duration"
    ∷ typed as_u16 read_write nvs 70 "Fon_Tank_Max_Duration"
    ∷ typed as_u16 read_write nvs 71 "Fon_Unknown_Max_Duration"
    ∷ typed as_f32 read_write nvs 72 "Fon_Flow_K_Hand"
    ∷ typed as_f32 read_write nvs 73 "Fon_Flow_K_Tank"
    ∷ typed as_text read_write nvs 74 "Network_SSID"
    ∷ typed as_text read_write nvs 75 "Network_Password"
    ∷ typed as_text read_write nvs 76 "Network_Server"
    ∷ typed as_u16 read_write nvs 77 "Network_Server_Port"
    ∷ typed as_bool read_write nvs 78 "Network_DHCP"
    ∷ typed as_text read_write nvs 79 "Network_IP_Address"
    ∷ typed as_text read_write nvs 80 "Network_Subnetmask"
    ∷ typed as_text read_write nvs 81 "Network_Gateway"
    ∷ typed as_u8 read_write nvs 82 "Net_PS_Override"
    ∷ typed as_bool read_only nvs 83 "Backup_DHCP"
    ∷ typed as_text read_only nvs 84 "Backup_IP_Address"
    ∷ typed as_text read_only nvs 85 "Backup_Subnetmask"
    ∷ typed as_text read_only nvs 86 "Backup_Gateway"
    ∷ typed as_text read_only nvs 87 "Backup_Server"
    ∷ typed as_u16 read_only nvs 88 "Backup_Server_Port"
    ∷ typed as_text read_only nvs 89 "Backup_SSID"
    ∷ typed as_text read_only nvs 90 "Backup_Password"
    ∷ typed as_bool read_write nvs 91 "Log_Enabled"
    ∷ typed as_u8 read_write nvs 92 "Log_Runtime_Level"
    ∷ typed as_u8 read_write nvs 93 "Log_Flash_Level"
    ∷ typed as_u8 read_write volatile 94 "Network_Save"
    ∷ typed as_u8 read_only volatile 95 "Network_Trial_State"
    ∷ typed as_u32 read_only volatile 96 "Log_Next_Seq"
    ∷ typed as_u32 read_only volatile 97 "Log_Dropped"
    ∷ typed as_u32 read_only volatile 98 "Log_Dropped_Flash"
    ∷ typed as_bool read_only volatile 99 "Log_Prev_Boot_Available"
    ∷ typed as_u8 read_write volatile 100 "Log_Command"
    ∷ typed as_u32 read_only volatile 101 "Pressure_Hist_Next_Seq"
    ∷ typed as_u32 read_only volatile 102 "Pressure_Hist_Overwritten"
    ∷ typed as_u32 read_only volatile 103 "Pressure_Hist_Highwater"
    ∷ typed as_u8 read_only volatile 104 "System_WD_Last_Channel"
    ∷ typed as_u16 read_only volatile 105 "System_WD_Last_Checkpoint"
    ∷ typed as_u8 read_only volatile 106 "System_WD_Reboot_Count"
    ∷ []
