-- ===== src/Catalog/Table4.antt =====
-- include/fountainer/datapoints/generated.hpp: the descriptors from line 305 to line 356.
use fountainer_client_framew.Common.{List, [], ◌∷◌, none}
use fountainer_client_framew.Datapoint.{
  DatapointDescriptor, described, presented, bool, config, disabled, nvs, read_only, read_write,
  status, str, u16, u32, u8, volatile,
}

abbrev pub descriptors_4 : List DatapointDescriptor
descriptors_4 =
    described 81 "Network_Gateway" str read_write nvs 208 0x0000000000000000 0x7ff8000000000000
      0x7ff8000000000000 (presented "" none 0x0000000000000000 "" "") config
    ∷ described 82 "Net_PS_Override" u8 read_write nvs 210 0x0000000000000000 0x0000000000000000
        0x4000000000000000 (presented "" none 0x0000000000000000 "" "") config
    ∷ described 83 "Backup_DHCP" bool read_only nvs 301 0x3ff0000000000000 0x7ff8000000000000
        0x7ff8000000000000 (presented "" none 0x0000000000000000 "dhcp" "") config
    ∷ described 84 "Backup_IP_Address" str read_only nvs 302 0x0000000000000000 0x7ff8000000000000
        0x7ff8000000000000 (presented "" none 0x0000000000000000 "" "") config
    ∷ described 85 "Backup_Subnetmask" str read_only nvs 303 0x0000000000000000 0x7ff8000000000000
        0x7ff8000000000000 (presented "" none 0x0000000000000000 "" "") config
    ∷ described 86 "Backup_Gateway" str read_only nvs 304 0x0000000000000000 0x7ff8000000000000
        0x7ff8000000000000 (presented "" none 0x0000000000000000 "" "") config
    ∷ described 87 "Backup_Server" str read_only nvs 305 0x0000000000000000 0x7ff8000000000000
        0x7ff8000000000000 (presented "" none 0x0000000000000000 "" "") config
    ∷ described 88 "Backup_Server_Port" u16 read_only nvs 306 0x40c07d8000000000 0x7ff8000000000000
        0x7ff8000000000000 (presented "" none 0x0000000000000000 "" "") config
    ∷ described 89 "Backup_SSID" str read_only nvs 307 0x0000000000000000 0x7ff8000000000000
        0x7ff8000000000000 (presented "" none 0x0000000000000000 "" "") config
    ∷ described 90 "Backup_Password" str read_only nvs 308 0x0000000000000000 0x7ff8000000000000
        0x7ff8000000000000 (presented "" none 0x0000000000000000 "" "") disabled
    ∷ described 91 "Log_Enabled" bool read_write nvs 401 0x3ff0000000000000 0x7ff8000000000000
        0x7ff8000000000000 (presented "" none 0x0000000000000000 "" "") config
    ∷ described 92 "Log_Runtime_Level" u8 read_write nvs 402 0x4008000000000000 0x0000000000000000
        0x4014000000000000 (presented "" none 0x0000000000000000 "" "") config
    ∷ described 93 "Log_Flash_Level" u8 read_write nvs 403 0x4000000000000000 0x0000000000000000
        0x4014000000000000 (presented "" none 0x0000000000000000 "" "") config
    ∷ described 94 "Network_Save" u8 read_write volatile 0 0x0000000000000000 0x0000000000000000
        0x4010000000000000 (presented "" none 0x0000000000000000 "" "") disabled
    ∷ described 95 "Network_Trial_State" u8 read_only volatile 0 0x0000000000000000
        0x7ff8000000000000 0x7ff8000000000000 (presented "" none 0x0000000000000000 "trial" "")
        config
    ∷ described 96 "Log_Next_Seq" u32 read_only volatile 0 0x0000000000000000 0x7ff8000000000000
        0x7ff8000000000000 (presented "" none 0x0000000000000000 "" "") status
    ∷ described 97 "Log_Dropped" u32 read_only volatile 0 0x0000000000000000 0x7ff8000000000000
        0x7ff8000000000000 (presented "" none 0x0000000000000000 "" "") status
    ∷ described 98 "Log_Dropped_Flash" u32 read_only volatile 0 0x0000000000000000
        0x7ff8000000000000 0x7ff8000000000000 (presented "" none 0x0000000000000000 "" "") status
    ∷ described 99 "Log_Prev_Boot_Available" bool read_only volatile 0 0x0000000000000000
        0x7ff8000000000000 0x7ff8000000000000 (presented "" none 0x0000000000000000 "" "") status
    ∷ described 100 "Log_Command" u8 read_write volatile 0 0x0000000000000000 0x0000000000000000
        0x4008000000000000 (presented "" none 0x0000000000000000 "" "") disabled
    ∷ described 101 "Pressure_Hist_Next_Seq" u32 read_only volatile 0 0x0000000000000000
        0x7ff8000000000000 0x7ff8000000000000 (presented "" none 0x0000000000000000 "" "") status
    ∷ described 102 "Pressure_Hist_Overwritten" u32 read_only volatile 0 0x0000000000000000
        0x7ff8000000000000 0x7ff8000000000000 (presented "" none 0x0000000000000000 "" "") status
    ∷ described 103 "Pressure_Hist_Highwater" u32 read_only volatile 0 0x0000000000000000
        0x7ff8000000000000 0x7ff8000000000000 (presented "" none 0x0000000000000000 "" "") status
    ∷ described 104 "System_WD_Last_Channel" u8 read_only volatile 0 0x0000000000000000
        0x7ff8000000000000 0x7ff8000000000000 (presented "" none 0x0000000000000000 "" "") status
    ∷ described 105 "System_WD_Last_Checkpoint" u16 read_only volatile 0 0x0000000000000000
        0x7ff8000000000000 0x7ff8000000000000 (presented "" none 0x0000000000000000 "" "") status
    ∷ described 106 "System_WD_Reboot_Count" u8 read_only volatile 0 0x0000000000000000
        0x7ff8000000000000 0x7ff8000000000000 (presented "" none 0x0000000000000000 "" "") status
    ∷ []
