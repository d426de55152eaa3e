-- ===== src/Examples.antt =====
-- The theorems at concrete inputs, and tests of the definitions.
mod Package
mod CliExamples
mod CmdExamples
mod DatetimeExamples
mod ZoneExamples
mod DescriptorExamples
mod EmitterExamples
mod RunExamples
mod DescriptionExamples
mod MonitorExamples
mod RegistryExamples
mod RootExamples
mod ConditionExamples
mod MergingExamples
