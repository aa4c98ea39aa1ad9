-- ===== src/Catalog/Constants1.antt =====
-- include/fountainer/datapoints/generated.hpp: the typed constants from line 370 to line 477.
use fountainer_client_framew.Common.{List, [], ◌∷◌}
use fountainer_client_framew.Datapoint.{nvs, read_only, read_write, static, volatile}
use fountainer_client_framew.Catalog.Typed.{
  TypedConstant, typed, as_bool, as_f32, as_i8, as_text, as_u16, as_u32, as_u64, as_u8,
}

abbrev pub constants_1 : List TypedConstant
constants_1 =
    typed as_u64 read_only static 0 "Device_Serial_Number"
    ∷ typed as_text read_only static 1 "Device_HW_Version"
    ∷ typed as_text read_only static 2 "Device_SW_Version"
    ∷ typed as_u64 read_only static 3 "Device_Build_Version"
    ∷ typed as_f32 read_only volatile 4 "System_Temperature"
    ∷ typed as_u8 read_only volatile 5 "System_Utilization"
    ∷ typed as_u32 read_only volatile 6 "System_Memory_Free"
    ∷ typed as_u32 read_only volatile 7 "System_Min_Memory_Free"
    ∷ typed as_u32 read_only volatile 8 "System_Largest_Free_Block"
    ∷ typed as_u32 read_only volatile 9 "System_Flash_Free"
    ∷ typed as_i8 read_only volatile 10 "System_RSSI"
    ∷ typed as_u32 read_only volatile 11 "System_Uptime"
    ∷ typed as_u32 read_only volatile 12 "System_Min_Stack_Free"
    ∷ typed as_u32 read_only volatile 13 "System_Reconnect_Count"
    ∷ typed as_u8 read_only volatile 14 "System_Reset_Reason"
    ∷ typed as_u8 read_only volatile 15 "System_Power_Mode"
    ∷ typed as_u32 read_only volatile 16 "System_Event_Drops"
    ∷ typed as_u8 read_only volatile 17 "Net_Link_Score"
    ∷ typed as_u8 read_only volatile 18 "Net_Link_State"
    ∷ typed as_u32 read_only volatile 19 "Net_Session_Drops"
    ∷ typed as_u32 read_only volatile 20 "Net_Send_Fail_Count"
    ∷ typed as_u32 read_only volatile 21 "Net_Offline_Seconds"
    ∷ typed as_u32 read_only volatile 22 "Net_Last_Offline_S"
    ∷ typed as_f32 read_only volatile 23 "Ambient_Temperature"
    ∷ typed as_f32 read_only volatile 24 "Ambient_Humidity"
    ∷ typed as_f32 read_only volatile 25 "Fon_Current_Pressure"
    ∷ typed as_u32 read_only volatile 26 "Fon_Sensor_Voltage_mV"
    ∷ typed as_u8 read_only volatile 27 "Fon_Current_State"
    ∷ typed as_bool read_only volatile 28 "Fon_Relay_Output"
    ∷ typed as_u32 read_only volatile 29 "Fon_Run_Time"
    ∷ typed as_u32 read_only volatile 30 "Fon_Cycles_Total"
    ∷ typed as_u32 read_only volatile 31 "Fon_Remaining_Time"
    ∷ typed as_f32 read_only volatile 32 "Fon_Pressure_Filtered"
    ∷ typed as_f32 read_only volatile 33 "Fon_Pressure_Slope"
    ∷ typed as_u8 read_only volatile 34 "Fon_Demand_State"
    ∷ typed as_u16 read_only volatile 35 "Fon_Anomaly_Score"
    ∷ typed as_u32 read_only volatile 36 "Fon_Event_Duration"
    ∷ typed as_f32 read_only volatile 37 "Fon_Est_Flow_L_Min"
    ∷ typed as_f32 read_only volatile 38 "Fon_Est_Volume_Total"
    ∷ typed as_u8 read_only volatile 39 "Fon_Fault_Code"
    ∷ typed as_u8 read_only volatile 40 "Fon_Starts_Per_Hour"
    ∷ typed as_u32 read_only volatile 41 "Fon_Sensor_Err_Count"
    ∷ typed as_u16 read_only volatile 42 "Fon_Sensor_Noise_mV"
    ∷ typed as_u8 read_write volatile 43 "Fon_Fault_Ack"
    ∷ typed as_u8 read_write volatile 44 "Fon_Event_Label"
    ∷ typed as_bool read_write volatile 45 "Fon_Pressure_Manual"
    ∷ typed as_f32 read_write volatile 46 "Fon_Pressure_Value"
    ∷ typed as_f32 read_write nvs 47 "Fon_Min_Pressure"
    ∷ typed as_f32 read_write nvs 48 "Fon_Max_Pressure"
    ∷ typed as_f32 read_write nvs 49 "Fon_Alert_High_Pressure"
    ∷ typed as_f32 read_write nvs 50 "Fon_Alert_Low_Pressure"
    ∷ typed as_u16 read_write nvs 51 "Fon_Min_On_Time"
    ∷ typed as_u16 read_write nvs 52 "Fon_Max_On_Time"
    ∷ typed as_u16 read_write nvs 53 "Fon_Dry_Run_Detect_Time"
    ∷ []
