-- ===== src/StateInfo/Info.antt =====
-- `DirectLidarStateInfo` of include/livox_lidar_def.h as memory: the bytes of each member. The members
-- of nested structures that are written one by one are fields of their own.
use livox_sdk.Base.{
  ℕ, ◌≡◌, refl, ap, ◌∙◌, sym, Option, none, some, List, [], ◌∷◌, ◌==◌, ==_iff, if◌then◌else◌,
  length, replicate, length-replicate, arith, Bool-cases, inl, inr,
}

pub data Field : Type 0 where
  pcl_data_type pattern_mode dual_emit_en point_send_en lidar_ip_addr : Field
  lidar_net_mask lidar_gw_addr host_state_ip_addr host_state_info_port : Field
  lidar_state_info_port host_point_ip_addr host_point_data_port : Field
  lidar_point_data_port host_imu_ip_addr host_imu_data_port lidar_imu_data_port : Field
  ctl_ip_addr ctl_dst_port ctl_src_port log_ip_addr log_dst_port log_src_port : Field
  vehicle_speed environment_temp install_attitude blind_spot_set frame_rate : Field
  fov_cfg0 fov_cfg1 fov_cfg_en detect_mode func_io_cfg work_tgt_mode glass_heat : Field
  imu_data_en fusa_en esc_mode fov_mode echo_mode ntp_server_ip ito_mode : Field
  fog_noise_filter sn product_info version_app version_loader version_hardware : Field
  mac cur_work_state core_temp powerup_cnt local_time_now last_sync_time : Field
  time_offset time_sync_type status_code lidar_diag_status lidar_flash_status : Field
  fw_type hms_code roi_mode imu_range time_filter_mode pcl_freq_mode : Field

-- The offset and the size of a member in the packed structure.
unfoldable pub offset_of : Field → ℕ
offset_of pcl_data_type = 0
offset_of pattern_mode = 1
offset_of dual_emit_en = 2
offset_of point_send_en = 3
offset_of lidar_ip_addr = 4
offset_of lidar_net_mask = 20
offset_of lidar_gw_addr = 36
offset_of host_state_ip_addr = 52
offset_of host_state_info_port = 68
offset_of lidar_state_info_port = 70
offset_of host_point_ip_addr = 72
offset_of host_point_data_port = 88
offset_of lidar_point_data_port = 90
offset_of host_imu_ip_addr = 92
offset_of host_imu_data_port = 108
offset_of lidar_imu_data_port = 110
offset_of ctl_ip_addr = 112
offset_of ctl_dst_port = 128
offset_of ctl_src_port = 130
offset_of log_ip_addr = 132
offset_of log_dst_port = 148
offset_of log_src_port = 150
offset_of vehicle_speed = 152
offset_of environment_temp = 156
offset_of install_attitude = 160
offset_of blind_spot_set = 184
offset_of frame_rate = 188
offset_of fov_cfg0 = 189
offset_of fov_cfg1 = 209
offset_of fov_cfg_en = 229
offset_of detect_mode = 230
offset_of func_io_cfg = 231
offset_of work_tgt_mode = 235
offset_of glass_heat = 236
offset_of imu_data_en = 237
offset_of fusa_en = 238
offset_of esc_mode = 239
offset_of fov_mode = 240
offset_of echo_mode = 241
offset_of ntp_server_ip = 242
offset_of ito_mode = 258
offset_of fog_noise_filter = 259
offset_of sn = 260
offset_of product_info = 276
offset_of version_app = 340
offset_of version_loader = 344
offset_of version_hardware = 348
offset_of mac = 352
offset_of cur_work_state = 358
offset_of core_temp = 359
offset_of powerup_cnt = 363
offset_of local_time_now = 367
offset_of last_sync_time = 375
offset_of time_offset = 383
offset_of time_sync_type = 391
offset_of status_code = 392
offset_of lidar_diag_status = 424
offset_of lidar_flash_status = 426
offset_of fw_type = 427
offset_of hms_code = 428
offset_of roi_mode = 460
offset_of imu_range = 461
offset_of time_filter_mode = 464
offset_of pcl_freq_mode = 465

unfoldable pub size_of : Field → ℕ
size_of pcl_data_type = 1
size_of pattern_mode = 1
size_of dual_emit_en = 1
size_of point_send_en = 1
size_of lidar_ip_addr = 16
size_of lidar_net_mask = 16
size_of lidar_gw_addr = 16
size_of host_state_ip_addr = 16
size_of host_state_info_port = 2
size_of lidar_state_info_port = 2
size_of host_point_ip_addr = 16
size_of host_point_data_port = 2
size_of lidar_point_data_port = 2
size_of host_imu_ip_addr = 16
size_of host_imu_data_port = 2
size_of lidar_imu_data_port = 2
size_of ctl_ip_addr = 16
size_of ctl_dst_port = 2
size_of ctl_src_port = 2
size_of log_ip_addr = 16
size_of log_dst_port = 2
size_of log_src_port = 2
size_of vehicle_speed = 4
size_of environment_temp = 4
size_of install_attitude = 24
size_of blind_spot_set = 4
size_of frame_rate = 1
size_of fov_cfg0 = 20
size_of fov_cfg1 = 20
size_of fov_cfg_en = 1
size_of detect_mode = 1
size_of func_io_cfg = 4
size_of work_tgt_mode = 1
size_of glass_heat = 1
size_of imu_data_en = 1
size_of fusa_en = 1
size_of esc_mode = 1
size_of fov_mode = 1
size_of echo_mode = 1
size_of ntp_server_ip = 16
size_of ito_mode = 1
size_of fog_noise_filter = 1
size_of sn = 16
size_of product_info = 64
size_of version_app = 4
size_of version_loader = 4
size_of version_hardware = 4
size_of mac = 6
size_of cur_work_state = 1
size_of core_temp = 4
size_of powerup_cnt = 4
size_of local_time_now = 8
size_of last_sync_time = 8
size_of time_offset = 8
size_of time_sync_type = 1
size_of status_code = 32
size_of lidar_diag_status = 2
size_of lidar_flash_status = 1
size_of fw_type = 1
size_of hms_code = 32
size_of roi_mode = 1
size_of imu_range = 3
size_of time_filter_mode = 1
size_of pcl_freq_mode = 1

abbrev pub Info : Type 0
Info = Field → List ℕ

-- `DirectLidarStateInfo info = {}`.
unfoldable pub zero_info : Info
zero_info f = replicate (size_of f) 0

unfoldable pub set_field : Field → List ℕ → Info → Info
unfolding offset_of
set_field f image info g = if offset_of f == offset_of g then image else info g

abbrev members : List Field
members =
    pcl_data_type ∷ pattern_mode ∷ dual_emit_en ∷ point_send_en ∷ lidar_ip_addr ∷ lidar_net_mask
    ∷ lidar_gw_addr ∷ host_state_ip_addr ∷ host_state_info_port ∷ lidar_state_info_port
    ∷ host_point_ip_addr ∷ host_point_data_port ∷ lidar_point_data_port ∷ host_imu_ip_addr
    ∷ host_imu_data_port ∷ lidar_imu_data_port ∷ ctl_ip_addr ∷ ctl_dst_port ∷ ctl_src_port
    ∷ log_ip_addr ∷ log_dst_port ∷ log_src_port ∷ vehicle_speed ∷ environment_temp
    ∷ install_attitude ∷ blind_spot_set ∷ frame_rate ∷ fov_cfg0 ∷ fov_cfg1 ∷ fov_cfg_en
    ∷ detect_mode ∷ func_io_cfg ∷ work_tgt_mode ∷ glass_heat ∷ imu_data_en ∷ fusa_en ∷ esc_mode
    ∷ fov_mode ∷ echo_mode ∷ ntp_server_ip ∷ ito_mode ∷ fog_noise_filter ∷ sn ∷ product_info
    ∷ version_app ∷ version_loader ∷ version_hardware ∷ mac ∷ cur_work_state ∷ core_temp
    ∷ powerup_cnt ∷ local_time_now ∷ last_sync_time ∷ time_offset ∷ time_sync_type ∷ status_code
    ∷ lidar_diag_status ∷ lidar_flash_status ∷ fw_type ∷ hms_code ∷ roi_mode ∷ imu_range
    ∷ time_filter_mode ∷ pcl_freq_mode ∷ []

member_at : List Field → ℕ → Option Field
member_at [] n = none
member_at (f ∷ fs) n = if offset_of f == n then some f else member_at fs n

member_at-offset_of : (f : Field) → member_at members (offset_of f) ≡ some f
unfolding offset_of member_at
member_at-offset_of pcl_data_type = refl
member_at-offset_of _ = refl

some_eq : (f g : Field) → some f ≡ some g → f ≡ g
some_eq f g h = cc

-- Members stand at different offsets.
pub offset_of-injective : (f g : Field) → offset_of f ≡ offset_of g → f ≡ g
offset_of-injective f g e =
    some_eq f g (sym (member_at-offset_of f) ∙ ap (member_at members) e ∙ member_at-offset_of g)

-- Every member has as many bytes as its type.
abbrev pub IsSized : Info → Type 0
IsSized info = (f : Field) → length (info f) ≡ size_of f

pub zero_info-IsSized : IsSized zero_info
unfolding zero_info
zero_info-IsSized f = length-replicate (size_of f) 0

pub set_field-IsSized :
    (f : Field) (image : List ℕ) (info : Info)
    → length image ≡ size_of f
    → IsSized info
    → IsSized (set_field f image info)
unfolding set_field
set_field-IsSized f image info l sized g = elim (Bool-cases (offset_of f == offset_of g)) [
  | inl same ↦ rw same (l ∙ ap size_of (offset_of-injective f g ((==_iff _ _).0 same)))
  | inr other ↦ rw other (sized g)
]

pub set_field_same : (f : Field) (image : List ℕ) (info : Info) → set_field f image info f ≡ image
unfolding set_field
set_field_same f image info = ground arith
