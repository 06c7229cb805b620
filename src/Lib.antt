-- ===== src/Lib.antt =====
-- Verification of the CyanogenMod device tree for the Motorola Defy (jordan).
--
-- The tree holds kernel modules that are loaded into the phone's stock kernel, and user-space
-- libraries of its hardware. Modelled are, of modules/overclock, the I/O scheduler "simple", five
-- cpufreq governors, the cpufreq statistics and the overclocking module; the modules for the
-- proximity sensor, the buttons' backlight with its function hooks, the log of register accesses
-- and the number of fingers of the touch screen; and the libraries for the lights, for Bluetooth
-- and for three sensor drivers. The kernel calls its modules through tables of functions, by timers
-- and by files; the overclocking module calls the statistics, and the modules for the backlight,
-- the register log and the touch screen are called through the hooks.
--
-- Sio models modules/overclock/sio-iosched.c; each function has the name that it has in the source.
-- A request is its address, and the store `rqs` holds what the scheduler reads and writes of it, so
-- that a change of its deadline is seen through every list. The four lists of `struct sio_data` are
-- `fifo_list`, a function of the two indices. Sio.Valid, Sio.Choice, Sio.Dispatch, Sio.Drain,
-- Sio.Fairness and Sio.Merge prove what the operations do; Sio.Refinement states what a scheduler
-- may do with the places of its requests and proves that the calls do no more; Sio.Settings has the
-- set-up and the sysfs attributes.
--
-- Cpufreq holds what the governors share: the policy, the events, and the calls that a governor
-- makes into the kernel. A handler gets what it reads of the kernel as arguments (the clocks, the
-- run queue, jiffies, whether a timer is pending, the policy) and returns its calls in order beside
-- the new state. So nothing is assumed of the kernel's functions. Division by 0 is the result
-- `none`.
--
-- Smartass models modules/overclock/cpufreq_smartass.c: Smartass.Speed the speed limits,
-- Smartass.Timer the timer and the idle hook, Smartass.Work the choice of a frequency and the loop
-- over the CPUs, Smartass.Governor the events and suspend, Smartass.Stores the sysfs attributes.
-- Smartass.Load, .Decide, .WorkLaws, .WorkLoop and .GovernorLaws prove what they do.
--
-- Words of 32 and 64 bits are natural numbers with the wrap-around written out; an `int` is written
-- as its 32 bits where the source mixes it with unsigned numbers, and is an integer of Prelude.Int
-- where a setting is parsed. A loop goes over a list, or as often as its bound says; only the
-- search of bluedroid.c for its switch, which ends where the numbered files end, has fuel, and a
-- theorem says how much is enough. Parsing and printing of the sysfs texts, locks, memory
-- allocation but for its failure, and the registration with the kernel are not modelled.
--
-- Conservative models modules/overclock/cpufreq_conservative.c in the same way: Conservative.Check
-- the sampling and the choice of a frequency, Conservative.Tuners the sysfs attributes,
-- Conservative.Governor the events and the timer; Conservative.CheckLaws and .GovernorLaws prove
-- what they do.
--
-- FreqStats models modules/overclock/cpufreq_stats.c as built with CONFIG_CPU_FREQ_STAT_DETAILS:
-- FreqStats has the accounting and the notifier of transitions, FreqStats.Tables the creation and
-- the removal of a table and what is shown of it. An access outside an array is the result `none`.
-- The memory, the attribute groups and the policies of the kernel are the record `Kernel` of its
-- answers. FreqStats.Times, .Filling, .Creation and .Use prove what they do.
--
-- Overclock models modules/overclock/overclock.c: the search of the kernel's tables, what the start
-- of the module makes of the frequency table, and the write to /proc/overclock/mpu_opps, which also
-- changes the table of FreqStats. Overclock.Find, .Init and .Write prove what they do.
--
-- Lights models liblights/lights.c, a user-space library: a function of the file keeps what each
-- sysfs file was last set to, and any write may fail. Lights.Laws proves what the requests do.
--
-- Bluedroid models bluedroid.c, which programs link to switch Bluetooth: Bluedroid the power and
-- the count of users in a file, Bluedroid.Control bt_enable, bt_disable and bt_is_enabled, and
-- Bluedroid.Address the text of an address. Bluedroid.Rfkill, .Counting and .Failures prove what
-- they do. Calls by several programs at once, between whose reads and writes others may come, are
-- not modelled.
--
-- Boosted models modules/overclock/cpufreq_boosted.c: Boosted.Speed the limits and the change of a
-- frequency, Boosted.Timer the timer and the idle hook, Boosted.Work the work for each CPU,
-- Boosted.Governor the events, suspend and resume, Boosted.Stores the attributes. The kernel's
-- search of the frequency table is an argument, and Boosted.SpeedLaws.Serves states what it
-- promises. Boosted.SpeedLaws, .RampUp, .RampDown, .Sampling, .WorkLaws, .Carry and .GovernorLaws
-- prove what they do.
--
-- Proximity models modules/proximity/isl-proximity.c: Proximity the access to a register of the
-- sensor over a bus that may fail, with its retries, and Proximity.Handlers the files under
-- /proc/proximity. The constants of linux/isl29030.h and the answers of the bus are arguments.
-- Proximity.Retries, .Fields and .Distance prove what they do.
--
-- Interactive models modules/overclock/cpufreq_interactive.c, whose policy and target are one for
-- all CPUs: Interactive the timer, the idle hook, the load and the work, Interactive.Governor the
-- events; Interactive.Scaling proves what the timer and the work do together. Powersave models
-- modules/overclock/cpufreq_powersave.c.
--
-- Hooks models modules/backlight/hook.c, whose code other modules have copies of: the patching of
-- the first instruction of a kernel function, and its undoing. Hooks.Branch proves where the branch
-- leads, Hooks.Undo that the undoing is complete.
--
-- Backlight models modules/backlight/cpcap-bright.c: the conversion of a level to the value of a
-- register, the write that is hooked, and the files under /proc/backlight. Backlight.Levels and
-- .Writes prove what they do.
--
-- Logcap models modules/logcap/log-cpcap.c, which hooks the accesses to the registers of a chip:
-- Logcap the hooked functions, the array of registers, and the entries of /proc that are created
-- and removed; Logcap.Files the files. Logcap.Record and .Entries prove what any accesses leave.
--
-- Multitouch models modules/multitouch/defy-multitouch.c together with the fields of the driver's
-- structure that it changes; the calls that it makes are listed. Multitouch.Checksum proves what
-- any calls of its functions do to the checksum of the driver's settings. Proc holds the frame that
-- the write functions of these modules share.
--
-- Sensors models libsensors/SensorAK8973.cpp, the driver of the accelerometer, the compass and the
-- thermometer: Sensors.Compass the events that it reads and sends, Sensors.Control the switching of
-- the sensors and of the device, with openDevice and closeDevice of SensorBase.cpp. Sensors.Chunks
-- and .Parts prove that events may be read in parts, Sensors.ControlLaws what switching does.
-- Sensors.Isl29030 models libsensors/SensorISL29030.cpp, the sensors of proximity and light, and
-- Sensors.IslLaws proves what they report.
--
-- Not modelled are the modules that mostly name registers and call the kernel (clockfix, gpiofix,
-- mmcfix, usbled), symsearch, the other sensors, the C++ wrappers of the camera and the audio
-- policy, the Java application, scripts and prebuilt files.
pub mod Backlight
pub mod Bluedroid
pub mod Boosted
pub mod Conservative
pub mod Cpufreq
pub mod FreqStats
pub mod Hooks
pub mod Interactive
pub mod Lights
pub mod Logcap
pub mod Multitouch
pub mod Overclock
pub mod Powersave
pub mod Prelude
pub mod Proc
pub mod Proximity
pub mod Sensors
pub mod Sio
pub mod Smartass
